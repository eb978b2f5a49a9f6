-- ===== src/Connections/Invariant.antt =====
-- What holds of the connections between two operations.
pub mod Kept
pub mod Messages
pub mod Steps
use m5stack_core_s3se_dmx_co.Base.{
  ℕ, zero, suc, ◌+◌, ◌-◌, ◌%◌, ◌≡◌, ◌≢◌, ◌≤◌, ◌<◌, Bool, true, false, List, [], ◌∷◌, length, get_or,
  set, All, All-map, All-set, All-get_or, arith, refl, length-set, get_or-set_self, get_or-set_ne,
  to_bit, u32,
}
use m5stack_core_s3se_dmx_co.Connections.{Client, Connections, Metrics, no_client, place, put}

pub record IsClient (generation : ℕ) (c : Client) : Type 0 where
  pub size : length c.events ≡ 8
  pub head_in : c.head < 8
  pub count_in : c.count ≤ 8
  pub outstanding_in : c.outstanding ≤ 4
  pub rate_in : c.active ≡ true → c.rate ≤ 20
  pub old : c.generation ≤ generation
  pub numbered : c.active ≡ true → c.generation ≢ 0
  pub closed : c.active ≡ false → (c.count ≡ 0) × (c.outstanding ≡ 0)

-- How many connections are open.
unfoldable pub active_count : List Client → ℕ
active_count [] = 0
active_count (c ∷ cs) = to_bit c.active + active_count cs

pub record IsValid (h : Connections) : Type 0 where
  pub places : length h.clients ≡ 4
  pub clients : All (IsClient h.generation) h.clients
  pub inbox_size : length h.inbox ≡ 16
  pub head_in : h.head < 16
  pub count_in : h.count ≤ 16
  pub generation_in : h.generation < 4294967296
  pub distinct :
      (i j : ℕ)
      → (place i h).active ≡ true
      → (place j h).active ≡ true
      → (place i h).generation ≡ (place j h).generation
      → i ≡ j
  pub counted : h.metrics.clients ≡ active_count h.clients

pub no_client-IsClient : (g : ℕ) → IsClient g no_client
unfolding no_client
no_client-IsClient g = record {
  size = refl;
  head_in = omega arith;
  count_in = omega arith;
  outstanding_in = omega arith;
  rate_in = λ h. cc;
  old = omega arith;
  numbered = λ h. cc;
  closed = λ h. (refl, refl);
}

pub place-IsClient : (slot : ℕ) (h : Connections) → IsValid h → IsClient h.generation (place slot h)
place-IsClient slot h v =
    All-get_or (IsClient h.generation) h.clients slot no_client v.clients
      (no_client-IsClient h.generation)

pub active_count-set :
    (cs : List Client) (i : ℕ) (c d : Client)
    → i < length cs
    → active_count (set cs i c) + to_bit (get_or cs i d).active ≡ active_count cs + to_bit c.active
unfolding active_count
active_count-set [] i c d h = absurd (omega arith)
active_count-set (x ∷ cs) zero c d h = omega arith
active_count-set (x ∷ cs) (suc i) c d h = omega (arith, active_count-set cs i c d)

pub active_count-le : (cs : List Client) → active_count cs ≤ length cs
unfolding active_count
active_count-le [] = omega arith
active_count-le (c ∷ cs) = ground (arith, active_count-le cs)

-- A connection replaced by one of the same generation that is open only if it was.
pub put-IsValid :
    (slot : ℕ) (c : Client) (m : Metrics) (h : Connections)
    → IsValid h
    → slot < 4
    → IsClient h.generation c
    → c.generation ≡ (place slot h).generation
    → (c.active ≡ true → (place slot h).active ≡ true)
    → m.clients + to_bit (place slot h).active ≡ h.metrics.clients + to_bit c.active
    → IsValid (put slot c (record h { metrics = m }))
put-IsValid slot c m h v inside k same open_before count = record {
  places = ground (arith, length-set h.clients slot c, v.places);
  clients = All-set (IsClient h.generation) h.clients slot c v.clients k;
  inbox_size = v.inbox_size;
  head_in = v.head_in;
  count_in = v.count_in;
  generation_in = v.generation_in;
  distinct = λ i j p q e. ground (
    arith,
    v.distinct i j,
    v.places,
    get_or-set_self h.clients slot c no_client,
    get_or-set_ne h.clients slot i c no_client,
    get_or-set_ne h.clients slot j c no_client,
  );
  counted = ground (arith, active_count-set h.clients slot c no_client, v.places, v.counted);
}
