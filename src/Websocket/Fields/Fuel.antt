-- ===== src/Websocket/Fields/Fuel.antt =====
-- The loop over the fields of a message ends by itself: its fuel is never used up.
use m5stack_core_s3se_dmx_co.Base.{
  ℕ, zero, suc, ◌+◌, ◌-◌, ◌*◌, ◌/◌, ◌≡◌, ◌≤◌, ◌<◌, Bool, true, false, not, ◌||◌, Option, none, some,
  List, [], ◌∷◌, ◌++◌, length, codes, ◌==◌, ltb, leb, if◌then◌else◌, ◌>>=◌, arith, refl, ◌∙◌, sym,
  if_intro, elim_intro,
}
use m5stack_core_s3se_dmx_co.Archive.{has_bit}
use m5stack_core_s3se_dmx_co.Archive.Reader.{
  digits_loop, eat, is_digit, number, number_at, space, take_char,
}
use m5stack_core_s3se_dmx_co.Websocket.Fields.{
  Fields, after, boolean, field, field_value, fields_loop, key_index, string, string_loop,
}

-- A reader that leaves no more than `n` characters of the text.
abbrev Leaves {ℓ} : {A : Type ℓ} → ℕ → Option (A × List ℕ) → Type 0
Leaves n none = Unit
Leaves n (some (a, s)) = length s ≤ n

Leaves-bind {ℓ κ} :
    {A : Type ℓ} {B : Type κ} (n : ℕ) (o : Option (A × List ℕ))
    (k : A × List ℕ → Option (B × List ℕ))
    → Leaves n o
    → ((a : A) (s : List ℕ) → length s ≤ n → Leaves n (k (a, s)))
    → Leaves n (o >>= k)
Leaves-bind n none k h f = tt
Leaves-bind n (some (a, s)) k h f = f a s h

Leaves-rest {ℓ} :
    {B : Type ℓ} (n : ℕ) (o : Option (List ℕ)) (k : List ℕ → Option (B × List ℕ))
    → ((s : List ℕ) → o ≡ some s → Leaves n (k s))
    → Leaves n (o >>= k)
Leaves-rest n none k f = tt
Leaves-rest n (some s) k f = f s refl

length-space : (s : List ℕ) → length (space s) ≤ length s
unfolding space
length-space [] = omega arith
length-space (c ∷ s) = ground (arith, length-space s)

take_char-shrinks : (c : ℕ) (s r : List ℕ) → take_char c s ≡ some r → length r < length s
take_char-shrinks c [] r e = cc
take_char-shrinks c (x ∷ s) r e = ground arith

eat-shrinks : (c : ℕ) (s r : List ℕ) → eat c s ≡ some r → length r < length s
unfolding eat
eat-shrinks c s r e = omega (arith, take_char-shrinks c (space s) r e, length-space s)

string_loop-Leaves : (n cap : ℕ) (out s : List ℕ) → length s ≤ n → Leaves n (string_loop cap out s)
unfolding string_loop
string_loop-Leaves n cap out [] h = tt
string_loop-Leaves n cap out (c ∷ s) h =
    elim_intro (Leaves n) (c == 34) _ _ (λ p. omega arith)
      (λ p.
        elim_intro (Leaves n) (ltb c 32 || ltb 126 c || c == 92 || leb cap (length out + 1)) _ _
          (λ q. tt) (λ q. string_loop-Leaves n cap (out ++ c ∷ []) s (omega arith)))

digits_loop-Leaves : (n value : ℕ) (s : List ℕ) → length s ≤ n → Leaves n (digits_loop value s)
unfolding digits_loop
digits_loop-Leaves n value [] h = omega arith
digits_loop-Leaves n value (c ∷ s) h =
    elim_intro (Leaves n) (is_digit c) _ _
      (λ p.
        elim_intro (Leaves n) (ltb ((4294967295 - (c - b'0')) / 10) value) _ _ (λ q. tt)
          (λ q. digits_loop-Leaves n (value * 10 + (c - b'0')) s (omega arith)))
      (λ p. h)

number_at-Leaves : (n : ℕ) (s : List ℕ) → length s ≤ n → Leaves n (number_at s)
unfolding number_at
number_at-Leaves n [] h = tt
number_at-Leaves n (c ∷ s) h =
    if_intro (Leaves n) (is_digit c) _ _
      (λ p. Leaves-bind n (digits_loop 0 (c ∷ s)) _ (digits_loop-Leaves n 0 (c ∷ s) h) (λ a r k.
        if_intro (Leaves n) (length s == length r || not (c == b'0')) _ _ (λ q. k) (λ q. tt)))
      (λ p. tt)

number-Leaves : (n : ℕ) (s : List ℕ) → length s ≤ n → Leaves n (number s)
unfolding number
number-Leaves n s h = number_at-Leaves n (space s) (omega (arith, length-space s))

string-Leaves : (n cap : ℕ) (s : List ℕ) → length s ≤ n → Leaves n (string cap s)
unfolding string
string-Leaves n cap s h =
    Leaves-rest n (eat 34 s) _
      (λ r e. string_loop-Leaves n cap [] r (omega (arith, eat-shrinks 34 s r e)))

after-shrinks : (cs s r : List ℕ) → after cs s ≡ some r → length r ≤ length s
unfolding after
after-shrinks [] s r e = ground arith
after-shrinks (c ∷ cs) [] r e = cc
after-shrinks (c ∷ cs) (x ∷ s) r e = ground (arith, after-shrinks cs s r)

literal-Leaves :
    (n v : ℕ) (o : Option (List ℕ)) (other : Option (ℕ × List ℕ))
    → ((r : List ℕ) → o ≡ some r → length r ≤ n)
    → Leaves n other
    → Leaves n (elim o as (λ (x : Option (List ℕ)). Option (ℕ × List ℕ)) [
      | none ↦ other
      | some r ↦ some (v, r)
    ])
literal-Leaves n v none other f h = h
literal-Leaves n v (some r) other f h = f r refl

boolean-Leaves : (n : ℕ) (s : List ℕ) → length s ≤ n → Leaves n (boolean s)
unfolding boolean
boolean-Leaves n s h =
    literal-Leaves n 1 (after (codes "true") (space s)) _
      (λ r e. omega (arith, after-shrinks (codes "true") (space s) r e, length-space s))
      (literal-Leaves n 0 (after (codes "false") (space s)) none
        (λ r e. omega (arith, after-shrinks (codes "false") (space s) r e, length-space s)) tt)

field_value-Leaves :
    (n k : ℕ) (f : Fields) (s : List ℕ) → length s ≤ n → Leaves n (field_value k f s)
unfolding field_value
field_value-Leaves n k f s h =
    let text : (cap : ℕ) (put : List ℕ → Fields)
        → Leaves n (string cap s >>= λ (v : List ℕ × List ℕ). some (put v.0, v.1)) =
      λ cap put. Leaves-bind n (string cap s) _ (string-Leaves n cap s h) (λ a r l. l) in
    if_intro (Leaves n) (k == 2) _ _ (λ p. text 24 (λ v. record f { kind = v }))
      (λ p.
        if_intro (Leaves n) (k == 8) _ _ (λ p. text 16 (λ v. record f { setting = v }))
          (λ p.
            if_intro (Leaves n) (k == 11) _ _ (λ p. text 16 (λ v. record f { action = v }))
              (λ p.
                if_intro (Leaves n) (k == 10) _ _ (λ p. text 21 (λ v. record f { base = v }))
                  (λ p.
                    if_intro (Leaves n) (k == 13) _ _
                      (λ p. text 45 (λ v. record f { wifi_ssid = v }))
                      (λ p.
                        if_intro (Leaves n) (k == 14) _ _
                          (λ p. text 85 (λ v. record f { wifi_password = v }))
                          (λ p.
                            if_intro (Leaves n) (k == 18) _ _
                              (λ p. text 129 (λ v. record f { archive_data = v }))
                              (λ p.
                                Leaves-bind n (if k == 5 then boolean s else number s) _
                                  (if_intro (Leaves n) (k == 5) _ _ (λ q. boolean-Leaves n s h)
                                    (λ q. number-Leaves n s h))
                                  (λ a r l. l))))))))

field-Leaves : (n : ℕ) (f : Fields) (s : List ℕ) → length s ≤ n → Leaves n (field f s)
unfolding field
field-Leaves n f s h = Leaves-bind n (string 16 s) _ (string-Leaves n 16 s h) (λ key r l.
    Leaves-rest n (eat b':' r) _ (λ s1 e.
      if_intro (Leaves n) (key_index key == 19 || has_bit f.seen (key_index key)) _ _ (λ p. tt)
        (λ p. field_value-Leaves n (key_index key) _ s1 (omega (arith, eat-shrinks b':' r s1 e)))))

-- Two ways to go on that agree on what is left of the text.
bind_agree {ℓ κ} :
    {A : Type ℓ} {B : Type κ} (n : ℕ) (o : Option (A × List ℕ)) (k l : A × List ℕ → Option B)
    → Leaves n o
    → ((a : A) (s : List ℕ) → length s ≤ n → k (a, s) ≡ l (a, s))
    → (o >>= k) ≡ (o >>= l)
bind_agree n none k l h e = refl
bind_agree n (some (a, s)) k l h e = e a s h

rest_agree {κ} :
    {B : Type κ} (o : Option (List ℕ)) (k l : List ℕ → Option B)
    → ((s : List ℕ) → o ≡ some s → k s ≡ l s)
    → (o >>= k) ≡ (o >>= l)
rest_agree none k l e = refl
rest_agree (some s) k l e = e s refl

elim_agree {ℓ} :
    {A : Type ℓ} (b : Bool) (x y z : A)
    → y ≡ z
    → (elim b as (λ (w : Bool). A) [ true ↦ x | false ↦ y ])
      ≡ (elim b as (λ (w : Bool). A) [ true ↦ x | false ↦ z ])
elim_agree true x y z e = refl
elim_agree false x y z e = e

-- A way to read the fields from a place of the text on.
abbrev pub Reader : Type 0
Reader = Fields → List ℕ → Option (Fields × List ℕ)

-- What follows a field: the closing brace, or a comma and the rest, which `read` reads.
abbrev pub next_round : Reader → Fields → List ℕ → Option (Fields × List ℕ)
next_round read g [] = none
next_round read g (c ∷ r) = elim (c == b'}') [
  | true ↦ some (g, r)
  | false ↦ eat b',' (c ∷ r) >>= λ s. read g s
]

-- One round of the loop, as it is written, with `read` for the rounds that follow.
abbrev pub round : Reader → Reader
round read f s = field f s >>= λ v. next_round read v.0 (space v.1)

-- What `message_fields` runs: the loop with fuel for one round more than the characters of the text.
abbrev pub fueled : Reader
fueled f s = fields_loop (suc (length s)) f s

next-agrees :
    (k l : Reader) (g : Fields) (s : List ℕ)
    → ((r : List ℕ) → length r < length s → k g r ≡ l g r)
    → next_round k g s ≡ next_round l g s
next-agrees k l g [] same = refl
next-agrees k l g (c ∷ r) same =
    elim_agree (c == b'}') (some (g, r)) _ _
      (rest_agree (eat b',' (c ∷ r)) _ _ (λ s e. same s (eat-shrinks b',' (c ∷ r) s e)))

-- A round uses the rounds that follow on shorter texts only.
round-agrees :
    (k l : Reader) (f : Fields) (s : List ℕ)
    → ((g : Fields) (r : List ℕ) → length r < length s → k g r ≡ l g r)
    → round k f s ≡ round l f s
round-agrees k l f s same =
    bind_agree (length s) (field f s) _ _ (field-Leaves (length s) f s (omega arith))
      (λ g r m. next-agrees k l g (space r) (λ q e. same g q (omega (arith, length-space r))))

fields_loop-round :
    (fuel : ℕ) (f : Fields) (s : List ℕ) → fields_loop (suc fuel) f s ≡ round (fields_loop fuel) f s
unfolding fields_loop
fields_loop-round fuel f s = refl

loops-agree :
    (read : Reader)
    → ((f : Fields) (s : List ℕ) → read f s ≡ round read f s)
    → (fuel : ℕ) (f : Fields) (s : List ℕ) → length s < fuel
    → fields_loop fuel f s ≡ read f s
loops-agree read loop zero f s h = absurd (omega arith)
loops-agree read loop (suc fuel) f s h =
    fields_loop-round fuel f s
    ∙ round-agrees (fields_loop fuel) read f s
        (λ g r e. loops-agree read loop fuel g r (omega arith))
    ∙ sym (loop f s)

enough :
    (a b : ℕ) (f : Fields) (s : List ℕ)
    → length s < a
    → length s < b
    → fields_loop a f s ≡ fields_loop b f s
enough zero b f s h k = absurd (omega arith)
enough (suc a) zero f s h k = absurd (omega arith)
enough (suc a) (suc b) f s h k =
    fields_loop-round a f s
    ∙ round-agrees (fields_loop a) (fields_loop b) f s
        (λ g r e. enough a b g r (omega arith) (omega arith))
    ∙ sym (fields_loop-round b f s)

pub fueled-round : (f : Fields) (s : List ℕ) → fueled f s ≡ round fueled f s
fueled-round f s =
    fields_loop-round (length s) f s
    ∙ round-agrees (fields_loop (length s)) fueled f s
        (λ g r e. enough (length s) (suc (length r)) g r e (omega arith))

-- The loop over the fields of a message ends by itself, on every text. With fuel for one round more than the characters
-- of the text it does what the loop without fuel does: it is a round of it, whatever the text, with itself for
-- the rounds that follow. And there is no other way to run these rounds to their end: whatever reads every text
-- by such a round and itself has the result of the loop with any fuel over the characters of the text.
pub fields_loop-agrees :
    (read : Reader)
    → ((f : Fields) (s : List ℕ) → read f s ≡ round read f s)
    → (fuel : ℕ) (f : Fields) (s : List ℕ) → length s < fuel
    → (fueled f s ≡ round fueled f s) × (fields_loop fuel f s ≡ read f s)
fields_loop-agrees read loop fuel f s h = (fueled-round f s, loops-agree read loop fuel f s h)
