-- ===== src/Database/Limits.antt =====
-- The limits of a status that `parseSPNStatus` checks, against those that its constructor asserts.
use j1939_framework.Base.{ℕ, ◌+◌, ◌<◌, ◌≡◌, refl, arith, true, String, List, none, some, u8, u32}
use j1939_framework.Spn.{Spec, status, construct_spec, construct_status}
use j1939_framework.Generic.{Generic, register_spn}
use j1939_framework.Database.{aborted, ◌>>=◌, asserted, status_fits, build_status}

construct_status-none :
    (spec : Spec) (bit_offset bit_size : ℕ) (descriptions : List (ℕ × String))
    → u32 (bit_size + bit_offset) ≡ 0
    → construct_status spec (u8 bit_offset) (u8 bit_size) descriptions ≡ none
unfolding construct_status
construct_status-none spec bit_offset bit_size descriptions e = ground arith

-- A status whose size and offset, both u32, add up to exactly 2^32: the check lets it pass, since the sum
-- wraps to zero, and the constructor's assertion then ends the process.
pub build_status_aborts :
    (frame : Generic) (id number bit_offset bit_size offset : ℕ) (name : String)
    (descriptions : List (ℕ × String))
    → 0 < bit_size
    → bit_size + bit_offset ≡ 0x100000000
    → (status_fits bit_offset bit_size ≡ true)
      × (build_status frame id number bit_offset bit_size name offset descriptions ≡ aborted)
unfolding status_fits build_status asserted ◌>>=◌
build_status_aborts frame id number bit_offset bit_size offset name descriptions some_size sum = (
  ground arith,
  elim (construct_spec id number name offset)
      as (λ o.
        (asserted o >>= (λ spec.
          asserted (construct_status spec (u8 bit_offset) (u8 bit_size) descriptions)
          >>= (λ built. asserted (register_spn frame (status built)))))
        ≡ aborted) [
          | none ↦ refl
          | some spec ↦
              rw (construct_status-none spec bit_offset bit_size descriptions (omega arith)) refl
        ],
)
