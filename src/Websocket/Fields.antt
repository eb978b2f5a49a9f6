-- ===== src/Websocket/Fields.antt =====
-- src/websocket_protocol.cpp: the parser of a flat JSON object, and the fields that it reads.
pub mod Fuel
use m5stack_core_s3se_dmx_co.Base.{
  ℕ, zero, suc, ◌+◌, Bool, true, false, ◌||◌, Option, none, some, List, [], ◌∷◌, ◌++◌, length, set,
  replicate, bytes_eq, codes, ◌==◌, ltb, leb, if◌then◌else◌, ◌>>=◌,
}
use m5stack_core_s3se_dmx_co.Archive.{has_bit, with_bit}
use m5stack_core_s3se_dmx_co.Archive.Reader.{eat, number, space}

-- The loop of `Parser::string`, on a text after its opening quotation mark; the closing one is taken too.
unfoldable pub string_loop : ℕ → List ℕ → List ℕ → Option (List ℕ × List ℕ)
string_loop cap out [] = none
string_loop cap out (c ∷ s) = elim (c == 34) [
  | true ↦ some (out, s)
  | false ↦ elim (ltb c 32 || ltb 126 c || c == 92 || leb cap (length out + 1)) [
    | true ↦ none
    | false ↦ string_loop cap (out ++ c ∷ []) s
  ]
]

-- `string`, with the size of its array.
unfoldable pub string : ℕ → List ℕ → Option (List ℕ × List ℕ)
unfolding string_loop
string cap s = eat 34 s >>= λ r. string_loop cap [] r

-- A text that begins with the given one, and what follows it.
pub after : List ℕ → List ℕ → Option (List ℕ)
after [] s = some s
after (c ∷ cs) [] = none
after (c ∷ cs) (x ∷ s) = let rest = after cs s in if x == c then rest else none

pub boolean : List ℕ → Option (ℕ × List ℕ)
unfolding after
boolean s = elim (after (codes "true") (space s)) [
  | some r ↦ some (1, r)
  | none ↦ elim (after (codes "false") (space s)) [ some r ↦ some (0, r) | none ↦ none ]
]

-- What is read of a message: which fields are there, and their values.
pub record Fields : Type 0 where
  pub seen : ℕ
  pub nums : List ℕ
  pub kind : List ℕ
  pub setting : List ℕ
  pub base : List ℕ
  pub action : List ℕ
  pub wifi_ssid : List ℕ
  pub wifi_password : List ℕ
  pub archive_data : List ℕ

unfoldable pub no_fields : Fields
no_fields = record {
  seen = 0;
  nums = replicate 19 0;
  kind = [];
  setting = [];
  base = [];
  action = [];
  wifi_ssid = [];
  wifi_password = [];
  archive_data = [];
}

abbrev keys : List (List ℕ)
keys =
    codes "v"
    ∷ codes "id"
    ∷ codes "type"
    ∷ codes "channel"
    ∷ codes "value"
    ∷ codes "active"
    ∷ codes "slot"
    ∷ codes "target"
    ∷ codes "setting"
    ∷ codes "gesture"
    ∷ codes "base"
    ∷ codes "action"
    ∷ codes "request"
    ∷ codes "ssid"
    ∷ codes "password"
    ∷ codes "bytes"
    ∷ codes "offset"
    ∷ codes "token"
    ∷ codes "data"
    ∷ []

-- The first place of a text in a list of texts, or the length of the list.
unfoldable pub index_of : List (List ℕ) → List ℕ → ℕ
index_of [] key = 0
index_of (k ∷ ks) key = let rest = index_of ks key in if bytes_eq key k then 0 else suc rest

unfoldable pub key_index : List ℕ → ℕ
unfolding index_of
key_index key = index_of keys key

-- The value of the field `k`.
unfoldable pub field_value : ℕ → Fields → List ℕ → Option (Fields × List ℕ)
field_value k f s =
    if k == 2
    then (string 24 s >>= λ v. some (record f { kind = v.0 }, v.1))
    else if k == 8
    then (string 16 s >>= λ v. some (record f { setting = v.0 }, v.1))
    else if k == 11
    then (string 16 s >>= λ v. some (record f { action = v.0 }, v.1))
    else if k == 10
    then (string 21 s >>= λ v. some (record f { base = v.0 }, v.1))
    else if k == 13
    then (string 45 s >>= λ v. some (record f { wifi_ssid = v.0 }, v.1))
    else if k == 14
    then (string 85 s >>= λ v. some (record f { wifi_password = v.0 }, v.1))
    else if k == 18
    then (string 129 s >>= λ v. some (record f { archive_data = v.0 }, v.1))
    else ((if k == 5 then boolean s else number s) >>= λ v.
        some (record f { nums = set f.nums k v.0 }, v.1))

-- One field: its key, which may not have come before, and its value.
unfoldable pub field : Fields → List ℕ → Option (Fields × List ℕ)
unfolding field_value
field f s = string 16 s >>= λ key. eat b':' key.1 >>= λ s1.
    let k = key_index key.0 in
    if k == 19 || has_bit f.seen k
    then none
    else field_value k (record f { seen = with_bit f.seen k }) s1

-- The loop over the fields, up to the closing brace. Each round takes a character at least, so that the
-- length of the message is fuel enough.
unfoldable pub fields_loop : ℕ → Fields → List ℕ → Option (Fields × List ℕ)
fields_loop zero f s = none
fields_loop (suc fuel) f s = field f s >>= λ v. elim (space v.1) [
  | [] ↦ none
  | c ∷ r ↦ elim (c == b'}') [
    | true ↦ some (v.0, r)
    | false ↦ eat b',' (c ∷ r) >>= λ s2. fields_loop fuel v.0 s2
  ]
]

abbrev is_empty : List ℕ → Bool
is_empty [] = true
is_empty (c ∷ s) = false

unfoldable pub message_fields : List ℕ → Option Fields
message_fields s = eat b'{' s >>= λ r. fields_loop (suc (length s)) no_fields r >>= λ v.
    if is_empty (space v.1) then some v.0 else none
