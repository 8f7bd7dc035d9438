-- ===== src/Markets/Entries.antt =====
-- The entries of a reply in markets/stream.rs: each is acknowledged, and the pool does what it says.
use polymarket_orderbook_col.Base.{
  String, ◌≡◌, refl, sym, ap, ◌∙◌, Option, List, [], ◌∷◌, ◌++◌, append-nil, append_assoc, map,
  map-append, All, All-take, All-drop, ok,
}
use polymarket_orderbook_col.Events.Json.{Json}
use polymarket_orderbook_col.Pool.Registry.{Registry, registry}
use polymarket_orderbook_col.Pool.Serving.{IsServing}
use polymarket_orderbook_col.Markets.Stream.{
  Request, xgroup_create, xgroup_setid, xreadgroup, xack, Listener, Delivery, Reply, send, on_entry,
  on_entries, on_streams,
}
use polymarket_orderbook_col.Markets.Replay.{effect, meaning, IsFair, Serves, dispatch-Serves}

-- The ids that are acknowledged, and those from which is read.
abbrev pub acks : List Request → List String
acks [] = []
acks (xack id ∷ rs) = id ∷ acks rs
acks (xgroup_create id ∷ rs) = acks rs
acks (xgroup_setid id ∷ rs) = acks rs
acks (xreadgroup id ∷ rs) = acks rs

abbrev pub reads : List Request → List String
reads [] = []
reads (xreadgroup id ∷ rs) = id ∷ reads rs
reads (xgroup_create id ∷ rs) = reads rs
reads (xgroup_setid id ∷ rs) = reads rs
reads (xack id ∷ rs) = reads rs

pub acks-append : (rs qs : List Request) → acks (rs ++ qs) ≡ acks rs ++ acks qs
acks-append [] qs = refl
acks-append (xack id ∷ rs) qs = ap (λ t. id ∷ t) (acks-append rs qs)
acks-append (xgroup_create id ∷ rs) qs = acks-append rs qs
acks-append (xgroup_setid id ∷ rs) qs = acks-append rs qs
acks-append (xreadgroup id ∷ rs) qs = acks-append rs qs

pub reads-append : (rs qs : List Request) → reads (rs ++ qs) ≡ reads rs ++ reads qs
reads-append [] qs = refl
reads-append (xreadgroup id ∷ rs) qs = ap (λ t. id ∷ t) (reads-append rs qs)
reads-append (xgroup_create id ∷ rs) qs = reads-append rs qs
reads-append (xgroup_setid id ∷ rs) qs = reads-append rs qs
reads-append (xack id ∷ rs) qs = reads-append rs qs

abbrev pub id_of : Delivery → String
id_of d = d.entry.id

-- The entries of a reply, in order.
abbrev pub entries : Reply → List Delivery
entries [] = []
entries (ids ∷ rest) = ids ++ entries rest

-- The id of the last entry, if there is one.
abbrev pub last_id : List Delivery → String → String
last_id [] id = id
last_id (d ∷ ds) id = last_id ds (id_of d)

pub last_id-append :
    (ds es : List Delivery) (id : String) → last_id (ds ++ es) id ≡ last_id es (last_id ds id)
last_id-append [] es id = refl
last_id-append (d ∷ ds) es id = last_id-append ds es (id_of d)

module _ (parse : String → Option Json) where
  -- What entries do to the map of markets, one after the other.
  abbrev pub replay : List Delivery → Registry → Registry
  replay [] r = r
  replay (d ∷ ds) r = replay ds (effect (meaning parse d.entry) r)

  pub replay-append :
      (ds es : List Delivery) (r : Registry) → replay (ds ++ es) r ≡ replay es (replay ds r)
  replay-append [] es r = refl
  replay-append (d ∷ ds) es r = replay-append ds es (effect (meaning parse d.entry) r)

  -- The state after some entries: they are acknowledged in order, the last one is remembered, the pool
  -- serves the markets that they leave, and nothing is read.
  pub record Handled (owner : String → String) (ds : List Delivery) (s s' : Listener) : Type 0 where
    pub acked : acks s'.requests ≡ acks s.requests ++ map id_of ds
    pub unread : reads s'.requests ≡ reads s.requests
    pub last : s'.last_pending_id ≡ last_id ds s.last_pending_id
    pub same_phase : s'.pending_done ≡ s.pending_done
    pub serves : Serves owner s'.pool (replay ds (registry s.pool))

  on_entry-Handled :
      (owner : String → String) (d : Delivery) (s : Listener)
      → IsFair parse owner d
      → IsServing owner s.pool
      → (s' : Listener) × (on_entry parse d s ≡ ok s') × Handled owner (d ∷ []) s s'
  unfolding on_entry send
  on_entry-Handled owner d s f v =
      let (p', e, run, serves) = dispatch-Serves parse owner d s.pool f v in
      let s' : Listener = record {
        pending_done = s.pending_done;
        last_pending_id = d.entry.id;
        pool = p';
        requests = s.requests ++ xack d.entry.id ∷ [];
      } in
      (
        s',
        rw (run, on_entry) refl,
        record {
          acked = acks-append s.requests (xack d.entry.id ∷ []);
          unread = reads-append s.requests (xack d.entry.id ∷ []) ∙ append-nil (reads s.requests);
          last = refl;
          same_phase = refl;
          serves = serves;
        },
      )

  Handled-trans :
      (owner : String → String) (ds es : List Delivery) (s s1 s2 : Listener)
      → Handled owner ds s s1
      → Handled owner es s1 s2
      → Handled owner (ds ++ es) s s2
  Handled-trans owner ds es s s1 s2 h k = record {
    acked =
        k.acked
        ∙ ap (λ t. t ++ map id_of es) h.acked
        ∙ append_assoc (acks s.requests) (map id_of ds) (map id_of es)
        ∙ ap (λ t. acks s.requests ++ t) (sym (map-append id_of ds es));
    unread = k.unread ∙ h.unread;
    last = k.last ∙ ap (last_id es) h.last ∙ sym (last_id-append ds es s.last_pending_id);
    same_phase = k.same_phase ∙ h.same_phase;
    serves = record {
      serving = k.serves.serving;
      same =
          k.serves.same
          ∙ ap (replay es) h.serves.same
          ∙ sym (replay-append ds es (registry s.pool));
    };
  }

  pub Handled-none :
      (owner : String → String) (s : Listener) → IsServing owner s.pool → Handled owner [] s s
  Handled-none owner s v = record {
    acked = sym (append-nil (acks s.requests));
    unread = refl;
    last = refl;
    same_phase = refl;
    serves = record { serving = v; same = refl };
  }

  on_entries-Handled :
      (owner : String → String) (ds : List Delivery) (s : Listener)
      → All (IsFair parse owner) ds
      → IsServing owner s.pool
      → (s' : Listener) × (on_entries parse ds s ≡ ok s') × Handled owner ds s s'
  unfolding on_entries
  on_entries-Handled owner [] s f v = (s, refl, Handled-none owner s v)
  on_entries-Handled owner (d ∷ ds) s f v =
      let (s1, run1, h1) = on_entry-Handled owner d s f.0 v in
      let (s2, run2, h2) = on_entries-Handled owner ds s1 f.1 h1.serves.serving in
      (s2, rw run1 run2, Handled-trans owner (d ∷ []) ds s s1 s2 h1 h2)

  pub on_streams-Handled :
      (owner : String → String) (reply : Reply) (s : Listener)
      → All (IsFair parse owner) (entries reply)
      → IsServing owner s.pool
      → (s' : Listener) × (on_streams parse reply s ≡ ok s') × Handled owner (entries reply) s s'
  unfolding on_streams
  on_streams-Handled owner [] s f v = (s, refl, Handled-none owner s v)
  on_streams-Handled owner (ids ∷ rest) s f v =
      let (s1, run1, h1) = on_entries-Handled owner ids s (All-take _ ids (entries rest) f) v in
      let (s2, run2, h2) =
        on_streams-Handled owner rest s1 (All-drop _ ids (entries rest) f) h1.serves.serving in
      (s2, rw run1 run2, Handled-trans owner ids (entries rest) s s1 s2 h1 h2)
