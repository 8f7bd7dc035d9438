-- ===== src/Dedup/Window.antt =====
-- The cache of ws/dedup.rs over time: how long a key stays known.
use polymarket_orderbook_col.Base.{
  ℕ, ◌+◌, ◌≤◌, ◌<◌, ◌≡◌, ◌≢◌, refl, ◌∙◌, ◌⊎◌, inl, List, [], ◌∷◌, ◌++◌, Bool, true, false, ◌||◌,
  not, arith, ◌==◌, ==_iff, nat_key,
}
use polymarket_orderbook_col.Base.HashSet.{contains, contains-insert}
use polymarket_orderbook_col.Dedup.{DedupCache, check_and_insert, maybe_rotate}

-- Whether a key is known to either generation.
unfoldable pub knows : DedupCache → ℕ → Bool
knows c k = contains c.current k || contains c.previous k

-- `check_and_insert` answers whether the key is new; afterwards it is known, no other key becomes
-- known or forgotten, and the clock state is as before.
check_and_insert_lem :
    (key : ℕ) (c : DedupCache)
    → ((check_and_insert key c).1 ≡ not (knows c key))
      × ((k : ℕ) → knows (check_and_insert key c).0 k ≡ ((key == k) || knows c k))
      × ((check_and_insert key c).0.last_rotate ≡ c.last_rotate)
unfolding check_and_insert knows
check_and_insert_lem key c =
    (ground arith, λ k. ground (arith, contains-insert key c.current k, ==_iff key k), ground arith)

-- One event at the cache: a rotation, if it is due, and the check. `read` and `reset` are the instants
-- that the rotation reads.
pub record Sighting : Type 0 where
  pub read : ℕ
  pub reset : ℕ
  pub key : ℕ

unfoldable pub observe : Sighting → DedupCache → DedupCache × Bool
unfolding maybe_rotate check_and_insert
observe s c = check_and_insert s.key (maybe_rotate s.read s.reset c)

unfoldable pub run : List Sighting → DedupCache → DedupCache
run [] c = c
run (s ∷ ss) c = run ss (observe s c).0

-- The instants of the sightings do not go back.
abbrev pub InOrder : ℕ → List Sighting → Type 0
InOrder t [] = Unit
InOrder t (s ∷ ss) = (t ≤ s.read) × (s.read ≤ s.reset) × InOrder s.reset ss

-- A key that was stored at the instant `t` is in a generation that has not been dropped since, or
-- `rotate_every` has passed.
abbrev Kept : ℕ → ℕ → DedupCache → Type 0
Kept k t c =
    (contains c.current k ≡ true)
    ⊎ ((contains c.previous k ≡ true) × (t ≤ c.last_rotate))
    ⊎ (t + c.rotate_every ≤ c.last_rotate)

observe-Kept :
    (k t : ℕ) (s : Sighting) (c : DedupCache)
    → t ≤ s.read
    → s.read ≤ s.reset
    → Kept k t c
    → Kept k t (observe s c).0
unfolding observe
observe-Kept k t s c h g kept =
    ground (arith, contains-insert s.key c.current k, contains-insert s.key [] k)

pub observe-rotate_every :
    (s : Sighting) (c : DedupCache) → (observe s c).0.rotate_every ≡ c.rotate_every
unfolding observe
observe-rotate_every s c = ground arith

pub run-rotate_every :
    (ss : List Sighting) (c : DedupCache) → (run ss c).rotate_every ≡ c.rotate_every
unfolding run
run-rotate_every [] c = refl
run-rotate_every (s ∷ ss) c = run-rotate_every ss (observe s c).0 ∙ observe-rotate_every s c

-- An accepted key is in the current generation.
observe-stored :
    (s : Sighting) (c : DedupCache)
    → (observe s c).1 ≡ true
    → contains (observe s c).0.current s.key ≡ true
unfolding observe
observe-stored s c h = ground (
  arith,
  ==_iff s.key s.key,
  contains-insert s.key c.current s.key,
  contains-insert s.key [] s.key,
)

observe-rejects :
    (k t : ℕ) (s : Sighting) (c : DedupCache)
    → Kept k t c
    → s.key ≡ k
    → c.last_rotate ≤ s.read
    → s.read < t + c.rotate_every
    → (observe s c).1 ≡ false
unfolding observe
observe-rejects k t s c kept e h g = ground arith

observe-last_rotate :
    (s : Sighting) (c : DedupCache)
    → c.last_rotate ≤ s.read
    → s.read ≤ s.reset
    → (observe s c).0.last_rotate ≤ s.reset
unfolding observe
observe-last_rotate s c h g = ground arith

rejects_after :
    (k t : ℕ) (ss : List Sighting) (s : Sighting) (c : DedupCache) (now : ℕ)
    → t ≤ now
    → c.last_rotate ≤ now
    → InOrder now (ss ++ s ∷ [])
    → Kept k t c
    → s.key ≡ k
    → s.read < t + c.rotate_every
    → (observe s (run ss c)).1 ≡ false
unfolding run
rejects_after k t [] s c now h l order kept e g = observe-rejects k t s c kept e (omega arith) g
rejects_after k t (x ∷ ss) s c now h l order kept e g =
    rejects_after k t ss s (observe x c).0 x.reset (omega arith)
      (observe-last_rotate x c (omega arith) order.1) order.2
      (observe-Kept k t x c (omega arith) order.1 kept) e (omega (arith, observe-rotate_every x c))

-- At most once: after a key was accepted, whatever other events come in between, an event with the
-- same key is a duplicate until `rotate_every` (half the TTL) has passed.
pub accepted_once :
    (s : Sighting) (ss : List Sighting) (s' : Sighting) (c : DedupCache)
    → (observe s c).1 ≡ true
    → c.last_rotate ≤ s.read
    → InOrder s.read (s ∷ (ss ++ s' ∷ []))
    → s'.key ≡ s.key
    → s'.read < s.read + c.rotate_every
    → (observe s' (run ss (observe s c).0)).1 ≡ false
accepted_once s ss s' c h l order e g =
    rejects_after s.key s.read ss s' (observe s c).0 s.reset order.1
      (observe-last_rotate s c l order.1) order.2 (inl (observe-stored s c h)) e
      (omega (arith, observe-rotate_every s c))

-- Nor does the age of a key make it new: the next event after any silence still finds the keys of the
-- generation that was current, so the documented upper limit on the lifetime is not one.
outlives_any_silence :
    (c : DedupCache) (s : Sighting) → contains c.current s.key ≡ true → (observe s c).1 ≡ false
unfolding observe
outlives_any_silence c s h = ground arith

observe-due :
    (s : Sighting) (c : DedupCache) (k : ℕ)
    → c.last_rotate + c.rotate_every ≤ s.read
    → s.key ≢ k
    → (contains (observe s c).0.current k ≡ false)
      × ((observe s c).0.previous ≡ c.current)
      × ((observe s c).0.last_rotate ≡ s.reset)
unfolding observe contains
observe-due s c k h n =
    (ground (arith, ==_iff s.key k, contains-insert s.key [] k), ground arith, ground arith)

-- A key that is in neither of two events that each came when a rotation was due is forgotten.
forgotten_after_two :
    (x y : Sighting) (c : DedupCache) (k : ℕ)
    → c.last_rotate + c.rotate_every ≤ x.read
    → x.reset + c.rotate_every ≤ y.read
    → x.key ≢ k
    → y.key ≢ k
    → knows (run (x ∷ y ∷ []) c) k ≡ false
unfolding run knows
forgotten_after_two x y c k h g nx ny =
    let first = observe-due x c k h nx in
    let c' = (observe x c).0 in
    let second = observe-due y c' k (omega (arith, first.2, observe-rotate_every x c)) ny in
    rw second.0 (rw second.1 first.0)
