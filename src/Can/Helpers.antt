-- ===== src/Can/Helpers.antt =====
-- ICanHelper (CAN/ICanHelper.cpp): the registry of helpers, one for each interface that starts. What
-- the backends list and start is a parameter.
use Prim.Native.Char.{code}
use Prim.Native.String.{String as Str}
use text.Mathlib.Text.{◌==◌ as str_eq}
use j1939_framework.Base.{
  ℕ, Bool, true, false, List, [], ◌∷◌, Option, none, some, String, ltb, if◌then◌else◌,
}

-- The maps and sets of the library with texts as keys, in the order of `std::string`.
unfoldable pub codes : String → List ℕ
codes Str.[] = []
codes (Str.◌∷◌ c s) = code c ∷ codes s

unfoldable pub codes_lt : List ℕ → List ℕ → Bool
codes_lt xs [] = false
codes_lt [] (b ∷ ys) = true
codes_lt (a ∷ xs) (b ∷ ys) =
    let rest = codes_lt xs ys in if ltb a b then true else if ltb b a then false else rest

unfoldable pub text_lt : String → String → Bool
unfolding codes codes_lt
text_lt s t = codes_lt (codes s) (codes t)

module _ {V : Type 0} where
  unfoldable pub find : String → List (String × V) → Option V
  find k [] = none
  find k ((j, v) ∷ m) = let rest = find k m in if str_eq j k then some v else rest

  unfoldable pub insert : String → V → List (String × V) → List (String × V)
  unfolding text_lt
  insert k v [] = (k, v) ∷ []
  insert k v ((j, w) ∷ m) =
      let rest = insert k v m in
      if str_eq j k then (k, v) ∷ m else if text_lt k j then (k, v) ∷ (j, w) ∷ m else (j, w) ∷ rest

-- A set of names.
unfoldable pub insert_name : String → List String → List String
unfolding text_lt
insert_name k [] = k ∷ []
insert_name k (j ∷ names) =
    let rest = insert_name k names in
    if str_eq j k then k ∷ names else if text_lt k j then k ∷ j ∷ names else j ∷ rest

unfoldable pub insert_names : List String → List String → List String
unfolding insert_name
insert_names [] names = names
insert_names (k ∷ more) names = insert_names more (insert_name k names)

pub data Backend : Type 0 where
  socket_can peak_can : Backend

pub record Helper : Type 0 where
  pub backend : Backend
  pub interface : String
  pub bitrate : ℕ

-- What the system offers: the interfaces of each backend, and whether a helper starts there.
pub record System : Type 0 where
  pub socket_ifaces : List String
  pub peak_ifaces : List String
  pub starts : Backend → String → ℕ → Bool

abbrev pub Helpers : Type 0
Helpers = List (String × Helper)

-- `initialize` of a new helper, which is kept if it succeeds
unfoldable pub add_helper : System → ℕ → Backend → String → Helpers → Helpers
unfolding insert
add_helper system bitrate backend name helpers =
    if system.starts backend name bitrate
    then insert name (record { backend = backend; interface = name; bitrate = bitrate }) helpers
    else helpers

unfoldable pub add_helpers : System → ℕ → Backend → List String → Helpers → Helpers
unfolding add_helper
add_helpers system bitrate backend [] helpers = helpers
add_helpers system bitrate backend (name ∷ names) helpers =
    add_helpers system bitrate backend names (add_helper system bitrate backend name helpers)

unfoldable pub create_can_helpers : System → ℕ → Helpers → Helpers
unfolding add_helpers
create_can_helpers system bitrate [] =
    add_helpers system bitrate peak_can system.peak_ifaces
      (add_helpers system bitrate socket_can system.socket_ifaces [])
create_can_helpers system bitrate (h ∷ helpers) = h ∷ helpers

unfoldable pub deallocate_can_helpers : Helpers → Helpers
deallocate_can_helpers helpers = []

unfoldable pub get_interfaces : System → List String
unfolding insert_names
get_interfaces system = insert_names system.peak_ifaces (insert_names system.socket_ifaces [])
