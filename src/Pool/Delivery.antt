-- ===== src/Pool/Delivery.antt =====
-- The overflow pass and the dispatch of `subscribe_markets` in ws/pool.rs.
use polymarket_orderbook_col.Base.{
  ℕ, zero, suc, ◌+◌, ◌≤◌, ◌<◌, String, ◌≡◌, refl, ap, sym, subst, none, List, [], ◌∷◌, ◌++◌, arith,
  length, All, ok, lt→ltb, ◌==◌, nat_key, string_key, if◌then◌else◌,
}
use polymarket_orderbook_col.Base.HashMap
use polymarket_orderbook_col.Base.HashMap.{Unique, insert-Unique, insert-All, contains_key→get}
use polymarket_orderbook_col.Base.HashSet.{length-extend-le}
use polymarket_orderbook_col.Pool.{ConnHandle, Pending, pending_of, push_pending}
use polymarket_orderbook_col.Pool.Passes.{SecondPass, pass3}
use polymarket_orderbook_col.Pool.Subscribe.{modify, deliver, dispatch}
use polymarket_orderbook_col.Pool.Room.{load, length-pending_of-push}
use polymarket_orderbook_col.Pool.Capacity.{Fits, Keyed}

pub Fits-append :
    (limit : ℕ) (p : Pending) (idx : ℕ) (hs : List ConnHandle) (h : ConnHandle)
    → Fits limit p idx hs
    → load p (idx + length hs) h ≤ limit
    → Fits limit p idx (hs ++ h ∷ [])
Fits-append limit p idx [] h f g =
    let at : idx + 0 ≡ idx = omega arith in (subst (λ i. load p i h ≤ limit) at g, tt)
Fits-append limit p idx (c ∷ cs) h f g =
    let at : idx + length (c ∷ cs) ≡ suc idx + length cs = omega arith in
    (f.0, Fits-append limit p (suc idx) cs h f.1 (subst (λ i. load p i h ≤ limit) at g))

Fits-push_above :
    (limit : ℕ) (p : Pending) (i : ℕ) (a : String) (idx : ℕ) (hs : List ConnHandle)
    → idx + length hs ≤ i
    → Fits limit p idx hs
    → Fits limit (push_pending i a p) idx hs
Fits-push_above limit p i a idx [] h f = tt
Fits-push_above limit p i a idx (c ∷ cs) h f = (
  ground (arith, length-pending_of-push i a p idx, f.0),
  Fits-push_above limit p i a (suc idx) cs (omega arith) f.1,
)

-- The connections in pass 3, and the extra one, which is to get `more` assets.
pub record IsOverflowing (limit : ℕ) (conns : List ConnHandle) (p : Pending) (more : ℕ)
    : Type 0 where
  pub fits : Fits limit p 0 conns
  pub few : length (pending_of p (length conns)) + more ≤ limit
  pub unique : Unique p
  pub in_range : All (λ (e : ℕ × List String). e.0 < suc (length conns)) p

push-IsOverflowing :
    (limit : ℕ) (conns : List ConnHandle) (p : Pending) (a : String) (more : ℕ)
    → IsOverflowing limit conns p (suc more)
    → IsOverflowing limit conns (push_pending (length conns) a p) more
unfolding push_pending
push-IsOverflowing limit conns p a more v =
    let n = length conns in
    record {
      fits = Fits-push_above limit p n a 0 conns (omega arith) v.fits;
      few = ground (arith, length-pending_of-push n a p n, v.few);
      unique = insert-Unique n (pending_of p n ++ a ∷ []) p v.unique;
      in_range =
          insert-All (λ j. j < suc n) n (pending_of p n ++ a ∷ []) p (omega arith) v.in_range;
    }

-- Pass 3 does not panic on assets that have a first connection; it leaves the other connections alone
-- and gives the extra one no more than the overflow.
pub pass3_lem :
    (limit : ℕ) (conns : List ConnHandle) (first_conn : List (String × ℕ)) (order : List String)
    (s : SecondPass)
    → IsOverflowing limit conns s.pending (length order)
    → Keyed first_conn order
    → (s' : SecondPass) × (pass3 (length conns) first_conn order s ≡ ok s')
      × IsOverflowing limit conns s'.pending 0
unfolding pass3
pass3_lem limit conns first_conn [] s v k = (s, refl, v)
pass3_lem limit conns first_conn (a ∷ rest) s v (ka, k) =
    let n = length conns in
    let (first, key) = contains_key→get first_conn a ka in
    let s1 : SecondPass = record s {
      pending = push_pending n a s.pending;
      asset_to_conns = HashMap.insert a (first, n) s.asset_to_conns;
    } in
    let (s', run, v') =
      pass3_lem limit conns first_conn rest s1
        (push-IsOverflowing limit conns s.pending a (length rest) v) k in
    (s', rw (key, pass3) run, v')

pub length-modify {ℓ} :
    {A : Type ℓ} (f : A → A) (i : ℕ) (xs : List A) → length (modify f i xs) ≡ length xs
unfolding modify
length-modify f i [] = refl
length-modify f zero (x ∷ xs) = refl
length-modify f (suc i) (x ∷ xs) = ap suc (length-modify f i xs)

pending_of-head :
    (i : ℕ) (assets : List String) (rest : Pending) (j : ℕ)
    → pending_of ((i, assets) ∷ rest) j ≡ (if i == j then assets else pending_of rest j)
unfolding pending_of HashMap.get
pending_of-head i assets rest j = ground arith

pending_of-none : (p : Pending) (i : ℕ) → HashMap.get p i ≡ none → pending_of p i ≡ []
unfolding pending_of
pending_of-none p i h = ground arith

Fits-drop :
    (limit i : ℕ) (assets : List String) (rest : Pending) (idx : ℕ) (hs : List ConnHandle)
    → i < idx
    → Fits limit ((i, assets) ∷ rest) idx hs
    → Fits limit rest idx hs
Fits-drop limit i assets rest idx [] h f = tt
Fits-drop limit i assets rest idx (c ∷ cs) h f = (
  ground (arith, pending_of-head i assets rest idx, f.0),
  Fits-drop limit i assets rest (suc idx) cs (omega arith) f.1,
)

-- The head of the connections is the one that the additions are for.
deliver_here :
    (limit i : ℕ) (assets : List String) (rest : Pending) (idx : ℕ) (c : ConnHandle)
    → i ≡ idx
    → pending_of rest i ≡ []
    → load ((i, assets) ∷ rest) idx c ≤ limit
    → load rest idx (deliver assets c) ≤ limit
deliver_here limit i assets rest idx c e none_left fits =
    let here : pending_of ((i, assets) ∷ rest) idx ≡ assets =
      ground (arith, pending_of-head i assets rest idx, e) in
    let gone : pending_of rest idx ≡ [] = subst (λ j. pending_of rest j ≡ []) e none_left in
    omega (
      arith,
      fits,
      ap {B = ℕ} length here,
      ap {B = ℕ} length gone,
      length-extend-le assets c.assets,
    )

deliver_later :
    (limit i : ℕ) (assets : List String) (rest : Pending) (idx : ℕ) (c : ConnHandle)
    → idx < i
    → load ((i, assets) ∷ rest) idx c ≤ limit
    → load rest idx c ≤ limit
deliver_later limit i assets rest idx c h fits =
    ground (arith, pending_of-head i assets rest idx, fits)

Fits-deliver :
    (limit i k : ℕ) (assets : List String) (rest : Pending) (idx : ℕ) (hs : List ConnHandle)
    → i ≡ idx + k
    → pending_of rest i ≡ []
    → Fits limit ((i, assets) ∷ rest) idx hs
    → Fits limit rest idx (modify (deliver assets) k hs)
unfolding modify
Fits-deliver limit i k assets rest idx [] e g f = tt
Fits-deliver limit i zero assets rest idx (c ∷ cs) e g f = (
  deliver_here limit i assets rest idx c (omega (arith, e)) g f.0,
  Fits-drop limit i assets rest (suc idx) cs (omega (arith, e)) f.1,
)
Fits-deliver limit i (suc k) assets rest idx (c ∷ cs) e g f = (
  deliver_later limit i assets rest idx c (omega (arith, e)) f.0,
  Fits-deliver limit i k assets rest (suc idx) cs (omega (arith, e)) g f.1,
)

-- The dispatch does not panic if every index is there, and no connection then holds more than its
-- load allowed for.
pub dispatch_lem :
    (limit : ℕ) (pending : Pending) (conns : List ConnHandle)
    → Unique pending
    → All (λ (e : ℕ × List String). e.0 < length conns) pending
    → Fits limit pending 0 conns
    → (conns' : List ConnHandle) × (dispatch pending conns ≡ ok conns') × Fits limit [] 0 conns'
unfolding dispatch
dispatch_lem limit [] conns u r f = (conns, refl, f)
dispatch_lem limit ((i, assets) ∷ rest) conns u r f =
    let conns1 = modify (deliver assets) i conns in
    let r1 =
      subst (λ n. All (λ (e : ℕ × List String). e.0 < n) rest)
        (sym (length-modify (deliver assets) i conns)) r.1 in
    let (conns', run, f') =
      dispatch_lem limit rest conns1 u.1 r1
        (Fits-deliver limit i i assets rest 0 conns (omega arith) (pending_of-none rest i u.0) f) in
    (conns', rw (lt→ltb i (length conns) r.0, dispatch) run, f')
