-- ===== src/Archive/Parse.antt =====
-- `preset_archive::parse`: format, version and presets in any order, each once; a collection that is
-- refused is left as far as it was read.
use m5stack_core_s3se_dmx_co.Base.{
  ℕ, zero, suc, ◌+◌, ◌-◌, ◌/◌, Bool, true, false, not, ◌&&◌, ◌||◌, Option, none, some, List, [],
  ◌∷◌, ◌++◌, length, set, replicate, bytes_eq, ◌==◌, ltb, if◌then◌else◌, ◌>>=◌, codes,
}
use m5stack_core_s3se_dmx_co.Archive.{
  Collection, slots, channels, max_file, has_bit, with_bit, no_presets,
}
use m5stack_core_s3se_dmx_co.Archive.Reader.{start, eat, at, done, text, number}

-- The 512 numbers of one preset, from the first one left to read.
values_loop : ℕ → List ℕ → List ℕ → Option (List ℕ × List ℕ)
values_loop zero packet s = some (packet, s)
values_loop (suc rest) packet s = number s >>= λ v.
    if ltb 255 v.0
    then none
    else (if rest == 0 then some v.1 else eat b',' v.1) >>= λ s'.
        values_loop rest (packet ++ v.0 ∷ []) s'

-- The fields of one preset, as far as they are read.
record Fields : Type 0 where
  seen : ℕ
  slot : ℕ
  name : List ℕ
  packet : List ℕ

abbrev field_bit : List ℕ → ℕ
field_bit key =
    if bytes_eq key (codes "slot")
    then 1
    else if bytes_eq key (codes "name")
    then 2
    else if bytes_eq key (codes "values")
    then 4
    else 0

-- The value of the field `f` of a preset.
preset_value : ℕ → Fields → List ℕ → Option (Fields × List ℕ)
unfolding values_loop
preset_value f r s =
    if f == 1
    then (number s >>= λ v.
        if ltb v.0 1 || ltb slots v.0 then none else some (record r { slot = v.0 }, v.1))
    else if f == 2
    then (text 4 s >>= λ v. some (record r { name = v.0 }, v.1))
    else (eat b'[' s >>= λ s'. values_loop channels [] s' >>= λ v.
        eat b']' v.1 >>= λ s'. some (record r { packet = v.0 }, s'))

-- The loop over the fields of a preset, up to its closing brace.
preset_loop : ℕ → Fields → List ℕ → Option (Fields × List ℕ)
unfolding preset_value
preset_loop zero r s = none
preset_loop (suc fuel) r s = text 16 s >>= λ k. eat b':' k.1 >>= λ s1.
    let f = field_bit k.0 in
    (if f == 0 || has_bit r.seen (f / 2)
      then none
      else preset_value f (record r { seen = r.seen + f }) s1)
    >>= λ v. elim (at b'}' v.1).0 [
      | true ↦ some (v.0, (at b'}' v.1).1)
      | false ↦ eat b',' (at b'}' v.1).1 >>= λ s3. preset_loop fuel v.0 s3
    ]

abbrev no_fields : Fields
no_fields = record { seen = 0; slot = 0; name = []; packet = replicate channels 0 }

-- The checks on a preset that is read whole, and the preset put in its place.
store_preset : Collection → Fields → Option Collection
store_preset out r =
    if not (r.seen == 7)
      || not (bytes_eq r.name (b'P' ∷ (b'0' + r.slot) ∷ []))
      || has_bit out.present (r.slot - 1)
    then none
    else some (record {
      present = with_bit out.present (r.slot - 1);
      values = set out.values (r.slot - 1) r.packet;
    })

-- One preset between its braces.
next_preset : Collection → List ℕ → Option (Collection × List ℕ)
unfolding preset_loop store_preset
next_preset out s = eat b'{' s >>= λ s1. preset_loop (suc (length s1)) no_fields s1 >>= λ r.
    eat b'}' r.1 >>= λ s2. store_preset out r.0 >>= λ out'. some (out', s2)

-- The loop over the presets, up to the closing bracket.
presets_loop : ℕ → Collection → List ℕ → Collection × Option (List ℕ)
unfolding next_preset
presets_loop zero out s = (out, none)
presets_loop (suc fuel) out s = elim (next_preset out s) [
  | none ↦ (out, none)
  | some v ↦ elim (at b']' v.1).0 [
    | true ↦ (v.0, some (at b']' v.1).1)
    | false ↦ elim (eat b',' (at b']' v.1).1) [
      | none ↦ (v.0, none)
      | some s3 ↦ presets_loop fuel v.0 s3
    ]
  ]
]

presets_array : Collection → List ℕ → Collection × Option (List ℕ)
unfolding presets_loop
presets_array out s = elim (eat b'[' s) [
  | none ↦ (out, none)
  | some s1 ↦
      let (empty, s2) = at b']' s1 in
      let (out', r) = (if empty then (out, some s2) else presets_loop (suc (length s2)) out s2) in
      (out', r >>= eat b']')
]

abbrev key_bit : List ℕ → ℕ
key_bit key =
    if bytes_eq key (codes "format")
    then 1
    else if bytes_eq key (codes "version")
    then 2
    else if bytes_eq key (codes "presets")
    then 4
    else 0

-- The value of the field `f` of the file.
file_value : ℕ → Collection → List ℕ → Collection × Option (List ℕ)
unfolding presets_array
file_value f out s =
    if f == 1
    then (
      out,
      text 32 s >>= λ v. if bytes_eq v.0 (codes "cores3se-dmx-presets") then some v.1 else none,
    )
    else if f == 2
    then (out, number s >>= λ v. if v.0 == 1 then some v.1 else none)
    else presets_array out s

-- The key of a field of the file, its colon taken.
next_key : List ℕ → Option (ℕ × List ℕ)
next_key s = text 16 s >>= λ k. eat b':' k.1 >>= λ s1. some (key_bit k.0, s1)

-- The loop over the fields of the file, up to its closing brace.
file_loop : ℕ → ℕ → Collection → List ℕ → Collection × Option (ℕ × List ℕ)
unfolding file_value next_key
file_loop zero fields out s = (out, none)
file_loop (suc fuel) fields out s = elim (next_key s) [
  | none ↦ (out, none)
  | some k ↦ elim (k.0 == 0 || has_bit fields (k.0 / 2)) [
    | true ↦ (out, none)
    | false ↦
        let (out', r) = file_value k.0 out k.1 in
        elim r [
          | none ↦ (out', none)
          | some s1 ↦ elim (at b'}' s1).0 [
            | true ↦ (out', some (fields + k.0, (at b'}' s1).1))
            | false ↦ elim (eat b',' (at b'}' s1).1) [
              | none ↦ (out', none)
              | some s2 ↦ file_loop fuel (fields + k.0) out' s2
            ]
          ]
        ]
  ]
]

-- Whether the text is an archive, and the collection read. The fuel of each loop is the length of the
-- text that is left, and every round takes some of it.
pub parse : List ℕ → Bool × Collection
unfolding file_loop
parse text_of_file =
    if length text_of_file == 0 || ltb max_file (length text_of_file)
    then (false, no_presets)
    else elim (eat b'{' (start text_of_file)) [
      | none ↦ (false, no_presets)
      | some s ↦
          let (out, r) = file_loop (suc (length s)) 0 no_presets s in
          elim r [
            | none ↦ (false, out)
            | some (fields, s1) ↦ elim (eat b'}' s1) [
              | none ↦ (false, out)
              | some s2 ↦ (fields == 7 && done s2, out)
            ]
          ]
    ]
