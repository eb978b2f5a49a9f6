-- ===== src/SoftAp/Usable.antt =====
-- The credentials that come out of the selection can be used.
use m5stack_core_s3se_dmx_co.Base.{
  ℕ, zero, suc, ◌<◌, ◌≤◌, All, get_or, ◌∷◌, [], ◌++◌, take, ◌≡◌, ◌≢◌, ◌==◌, if◌then◌else◌, Bool,
  true, Option, none, some, List, length, replicate, drop, ◌-◌, arith, refl,
}
use m5stack_core_s3se_dmx_co.SoftAp.{
  Credentials, Decision, find_nul, printable, select, select_legacy, select_current, text,
  valid_password, padded,
}

-- A string of `lo` to `hi` printable characters of ASCII in an array of `capacity` bytes, with the zero that ends it.
pub record IsText (capacity lo hi : ℕ) (p : List ℕ) : Type 0 where
  pub size : ℕ
  pub long : lo ≤ size
  pub short : size ≤ hi
  pub inside : size < capacity
  pub ended : get_or p size 1 ≡ 0
  pub chars : All (λ c. (32 ≤ c) × (c ≤ 126)) (take size p)

-- A name of 1 to 32 printable characters and a password of 8 to 63.
pub IsUsable : Credentials → Type 0
IsUsable c = IsText 33 1 32 c.ssid × IsText 64 8 63 c.pass

printable-All : (s : List ℕ) → printable s ≡ true → All (λ c. (32 ≤ c) × (c ≤ 126)) s
unfolding printable
printable-All [] h = tt
printable-All (c ∷ s) h = ground (arith, printable-All s)

found_first :
    (x : ℕ) (r : Option ℕ)
    → (if x == 0 then some 0 else elim r [ none ↦ none | some n ↦ some (suc n) ]) ≡ some 0
    → x ≡ 0
found_first x none h = ground arith
found_first x (some n) h = ground arith

found_later :
    (x n : ℕ) (r : Option ℕ)
    → (if x == 0 then some 0 else elim r [ none ↦ none | some n ↦ some (suc n) ]) ≡ some (suc n)
    → (x ≢ 0) × (r ≡ some n)
found_later x n none h = ground arith
found_later x n (some m) h = ground arith

find_nul-append :
    (c c' n : ℕ) (p z : List ℕ)
    → find_nul (take c p) ≡ some n
    → n < c'
    → find_nul (take c' (p ++ z)) ≡ some n
unfolding find_nul
find_nul-append zero c' n p z h k = cc
find_nul-append (suc c) c' n [] z h k = cc
find_nul-append (suc c) zero n (x ∷ p) z h k = absurd (omega arith)
find_nul-append (suc c) (suc c') zero (x ∷ p) z h k =
    ground (arith, found_first x (find_nul (take c p)) h)
find_nul-append (suc c) (suc c') (suc n) (x ∷ p) z h k =
    ground (arith, found_later x n (find_nul (take c p)) h, find_nul-append c c' n p z)

take-append : (c n : ℕ) (p z : List ℕ) → find_nul (take c p) ≡ some n → take n (p ++ z) ≡ take n p
unfolding find_nul
take-append zero n p z h = cc
take-append (suc c) n [] z h = cc
take-append (suc c) zero (x ∷ p) z h = refl
take-append (suc c) (suc n) (x ∷ p) z h =
    ground (arith, found_later x n (find_nul (take c p)) h, take-append c n p z)

find_nul_lem : (c n : ℕ) (p : List ℕ) → find_nul (take c p) ≡ some n → (n < c) × (get_or p n 1 ≡ 0)
unfolding find_nul
find_nul_lem zero n p h = cc
find_nul_lem (suc c) n [] h = cc
find_nul_lem (suc c) zero (x ∷ p) h = ground (arith, found_first x (find_nul (take c p)) h)
find_nul_lem (suc c) (suc n) (x ∷ p) h =
    ground (arith, found_later x n (find_nul (take c p)) h, find_nul_lem c n p)

text_of-IsText :
    (c lo hi : ℕ) (p : List ℕ) (r : Option ℕ)
    → find_nul (take c p) ≡ r
    → text p c lo hi ≡ true
    → IsText c lo hi p
unfolding text
text_of-IsText c lo hi p none e h = absurd (ground arith)
text_of-IsText c lo hi p (some n) e h = record {
  size = n;
  long = ground arith;
  short = ground arith;
  inside = (find_nul_lem c n p e).0;
  ended = (find_nul_lem c n p e).1;
  chars = printable-All (take n p) (ground arith);
}

text-IsText : (c lo hi : ℕ) (p : List ℕ) → text p c lo hi ≡ true → IsText c lo hi p
text-IsText c lo hi p h = text_of-IsText c lo hi p (find_nul (take c p)) refl h

-- The tests of the selection on its result.
abbrev Passes : Credentials → Type 0
Passes c = (text c.ssid 33 1 32 ≡ true) × (text c.pass 64 8 63 ≡ true)

checked : (c : Credentials) → Passes c → IsUsable c
unfolding IsUsable
checked c h = (text-IsText 33 1 32 c.ssid h.0, text-IsText 64 8 63 c.pass h.1)

select_current-Passes :
    (blob mac : List ℕ)
    → (select_current blob mac).0 ≡ Decision.keep
    → Passes (select_current blob mac).1
unfolding select_current valid_password
select_current-Passes blob mac h = ground arith

select_current-IsUsable :
    (blob mac : List ℕ)
    → (select_current blob mac).0 ≡ Decision.keep
    → IsUsable (select_current blob mac).1
select_current-IsUsable blob mac h =
    checked (select_current blob mac).1 (select_current-Passes blob mac h)

text_of-append :
    (c c' lo hi : ℕ) (p z : List ℕ) (r : Option ℕ)
    → find_nul (take c p) ≡ r
    → text p c lo hi ≡ true
    → hi < c'
    → text (p ++ z) c' lo hi ≡ true
unfolding text
text_of-append c c' lo hi p z none e h k = ground arith
text_of-append c c' lo hi p z (some n) e h k =
    ground (arith, find_nul-append c c' n p z e, take-append c n p z e)

text-append :
    (c c' lo hi : ℕ) (p z : List ℕ)
    → text p c lo hi ≡ true
    → hi < c'
    → text (p ++ z) c' lo hi ≡ true
unfolding text
text-append c c' lo hi p z h k = text_of-append c c' lo hi p z (find_nul (take c p)) refl h k

select_legacy-Passes :
    (blob : List ℕ) → (select_legacy blob).0 ≡ Decision.keep → Passes (select_legacy blob).1
unfolding select_legacy valid_password padded
select_legacy-Passes blob h = ground (
  arith,
  text-append 25 64 8 63 (take 25 (drop 37 blob))
      (replicate (64 - length (take 25 (drop 37 blob))) 0),
)

select_legacy-IsUsable :
    (blob : List ℕ) → (select_legacy blob).0 ≡ Decision.keep → IsUsable (select_legacy blob).1
select_legacy-IsUsable blob h = checked (select_legacy blob).1 (select_legacy-Passes blob h)

-- Credentials that the selection keeps, from a blob of either version, are a name of 1 to 32 characters from 32 to 126
-- and a password of 8 to 63, each ended by a zero in its array.
pub select-IsUsable :
    (blob : Option (List ℕ)) (exists reset : Bool) (mac : List ℕ)
    → (select blob exists reset mac).0 ≡ Decision.keep
    → IsUsable (select blob exists reset mac).1
unfolding select
select-IsUsable none exists reset mac h = ground arith
select-IsUsable (some blob) exists reset mac h =
    ground (arith, select_legacy-IsUsable blob, select_current-IsUsable blob mac)
