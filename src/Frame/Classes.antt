-- ===== src/Frame/Classes.antt =====
-- Whole frames of the classes whose data has one length: J1939Frame::encode, then J1939Frame::decode.
use j1939_framework.Base.{
  ℕ, ◌%◌, ◌/◌, ◌<◌, ◌≡◌, ◌⊎◌, ◌∙◌, refl, sym, ap, arith, List, [], ◌∷◌, length, replicate, take,
  take_all, suc, if◌then◌else◌, length-replicate, overwrite_all,
}
use j1939_framework.Common.{Result, ok, err, ◌>>=◌}
use j1939_framework.Header.{IsValid, get_identifier}
use j1939_framework.Header.Identifier.{is_pdu1}
use j1939_framework.Addressing
use j1939_framework.Addressing.{EcuName}
use j1939_framework.Addressing.Codec.{decode_data-encode_data_name}
use j1939_framework.Request.{decode_data-encode_data_request}
use j1939_framework.Transport.Tpcm
use j1939_framework.Transport.Tpcm.{Tpcm}
use j1939_framework.Transport.Tpcm.Codec.{carried, decode_data-encode_data_tpcm}
use j1939_framework.Transport.Tpdt
use j1939_framework.Transport.Tpdt.{Tpdt}
use j1939_framework.Fms.{Fms1}
use j1939_framework.Fms.Block.{rows, decode_data-encode_data_fms}
use j1939_framework.Frame.{
  Frame, Payload, Encoded, tpcm, tpdt, fms1, address_claim, request, encode, decode, encode_data,
  decode_data, data_length,
}
use j1939_framework.Frame.Encoding.{decode-encode, encode_data-length, priority_lem}

-- A payload that is sent, the payload that the receiver's frame has before, and the one that it has
-- then: a NAME whose fields fit; a connection management message with a known control byte, whose
-- fields fit; a packet of seven bytes; a requested PGN, cut to 18 bits; and the tell tales of a block,
-- each below 8, for a frame without tell tales, on another block or with all tell tales of this one.
pub data Carries : Payload → Payload → Payload → Type 0 where
  carries_name :
      (n old : EcuName)
      → Addressing.IsValid n
      → Carries (address_claim n) (address_claim old) (address_claim n)
  carries_tpcm :
      (t old : Tpcm)
      → Tpcm.IsValid t
      → Tpcm.IsCtrl t.ctrl_type
      → Carries (tpcm t) (tpcm old) (tpcm (carried old t))
  carries_tpdt : (t old : Tpdt) → Tpdt.IsValid t → Carries (tpdt t) (tpdt old) (tpdt t)
  carries_request : (pgn old : ℕ) → Carries (request pgn) (request old) (request (pgn % 0x40000))
  carries_fms :
      (b : ℕ) (st old : ℕ → ℕ) (f : Fms1)
      → b < 4
      → ((i : ℕ) → st i < 8)
      → (f.block_id ≡ b → (f.ttss ≡ []) ⊎ (f.ttss ≡ rows b old))
      → Carries
          (fms1 (record { block_id = b; ttss = rows b st }))
          (fms1 f)
          (fms1 (record { block_id = b; ttss = rows b st }))

-- What a class reads from what it wrote.
class_run :
    {A : Type 0} (class_of : A → Payload) (written : Result (List ℕ)) (read : List ℕ → Result A)
    (a : A)
    → (written >>= read) ≡ ok a
    → (out : List ℕ) × (written ≡ ok out)
      × ((elim (read out) as (λ r. Result Payload) [ ok u ↦ ok (class_of u) | err e ↦ err e ])
          ≡ ok (class_of a))
class_run class_of (ok out) read a e = (out, refl, rw e refl)
class_run class_of (err f) read a e = absurd (cc e)

packet_run :
    (t old : Tpdt) (buf : List ℕ)
    → Tpdt.IsValid t
    → length buf ≡ 8
    → (Tpdt.encode_data t buf >>= Tpdt.decode_data old) ≡ ok t
unfolding Tpdt.encode_data Tpdt.decode_data
packet_run t old buf v len =
    let seven = v.seven in
    let whole = take_all 7 t.bytes (omega (arith, seven)) in
    rw (overwrite_all (t.sq ∷ t.bytes) buf (ap suc seven ∙ sym len)) (ground (arith, whole, seven))

-- The payload is written into a buffer of its length, and read from it.
abbrev IsCarried : Payload → Payload → Payload → List ℕ → Type 0
IsCarried p q r buf = (out : List ℕ) × (encode_data p buf ≡ ok out) × (decode_data q out ≡ ok r)

Carries-IsCarried :
    (p q r : Payload) (buf : List ℕ)
    → Carries p q r
    → length buf ≡ data_length p
    → IsCarried p q r buf
unfolding encode_data decode_data data_length
Carries-IsCarried p q r buf (carries_name n old v) len =
    class_run address_claim _ _ n (decode_data-encode_data_name n old buf v len)
Carries-IsCarried p q r buf (carries_tpcm t old v c) len =
    class_run tpcm _ _ (carried old t) (decode_data-encode_data_tpcm t old buf v c len)
Carries-IsCarried p q r buf (carries_tpdt t old v) len =
    class_run tpdt _ _ t (packet_run t old buf v len)
Carries-IsCarried p q r buf (carries_request pgn old) len =
    class_run request _ _ _ (decode_data-encode_data_request pgn old buf len)
Carries-IsCarried p q r buf (carries_fms b st old f h small known) len =
    class_run fms1 _ _ _ (decode_data-encode_data_fms st small b old f buf h len known)

encoded_lem :
    (f : Frame) (out : List ℕ)
    → f.header.priority < 8
    → encode_data f.payload (replicate (data_length f.payload) 0xFF) ≡ ok out
    → encode f (data_length f.payload)
      ≡ ok (record {
        identifier = get_identifier f.header;
        buffer = out;
        used = data_length f.payload;
      })
unfolding encode
encoded_lem f out fits e = ground (arith, priority_lem f.header.priority, fits, e)

-- An address claim with a NAME whose fields fit, a connection management frame with a known control
-- byte whose fields fit, a data packet of seven bytes, a request, or an FMS1 frame with the tell tales of
-- a block is encoded into a buffer of its length. A frame of the same PGN and class decodes the
-- identifier and the bytes in use; for FMS1 it holds no tell tales, or another block, or all tell tales
-- of this one. It then has the sender's priority and source, its destination where the PGN has the first
-- format, and the sender's payload: of a connection management frame the fields of its control byte, and
-- of a request the PGN cut to 18 bits. The header's fields fit, and a PGN of the first format has its
-- page bits clear.
pub decode-encode_classes :
    (f b : Frame) (p : Payload)
    → IsValid f.header
    → b.header.pgn ≡ f.header.pgn
    → (f.header.pgn / 256 % 256 < 240 → f.header.pgn < 0x10000)
    → Carries f.payload b.payload p
    → (encode f (data_length f.payload) >>= (λ e. decode b e.identifier (take e.used e.buffer)))
      ≡ ok (record {
        header = record b.header {
          priority = f.header.priority;
          src_addr = f.header.src_addr;
          dst_addr = if is_pdu1 f.header.pgn then f.header.dst_addr else b.header.dst_addr;
        };
        payload = p;
      })
decode-encode_classes f b p v same page carries =
    let size = data_length f.payload in
    let blank : List ℕ = replicate size 0xFF in
    let blank_size : length blank ≡ size = length-replicate {A = ℕ} size 0xFF in
    let (out, written, read) = Carries-IsCarried f.payload b.payload p blank carries blank_size in
    let e : Encoded = record { identifier = get_identifier f.header; buffer = out; used = size } in
    let encoded : encode f size ≡ ok e = encoded_lem f out v.priority_fits written in
    let kept = encode_data-length f.payload blank out written in
    let whole : take size out ≡ out = take_all size out (omega (arith, kept, blank_size)) in
    ap (λ (r : Result Encoded). r >>= (λ x. decode b x.identifier (take x.used x.buffer))) encoded
    ∙ (ap (decode b e.identifier) whole ∙ decode-encode f b size e p v same page encoded read)
