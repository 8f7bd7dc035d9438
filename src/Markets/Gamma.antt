-- ===== src/Markets/Gamma.antt =====
-- gamma.rs: its markets are those of `binary_market_from_outcomes`, and its paging ends.
use polymarket_orderbook_col.Base.{
  Result-cases, ℕ, zero, suc, ◌+◌, ◌*◌, ◌≤◌, ◌<◌, ◌≡◌, refl, sym, String, Option, none, some, List,
  [], ◌∷◌, Bool, true, false, ltb, leb, string_key, length, arith, Result, ok, err, Bool-cases, inl,
  inr,
}
use polymarket_orderbook_col.Events.{Market}
use polymarket_orderbook_col.Markets.{
  binary_market_from_outcomes, RawMarket, GammaError, into_strings, pair_of, parse_market,
  parse_page, fetch_batch_size, max_offset, fetch_pages, fetch_active_markets,
}

abbrev is_pair : List String → Bool
is_pair (a ∷ b ∷ []) = true
is_pair _ = false

binary-other :
    (hash : String) (os ts : List String)
    → is_pair ts ≡ false
    → binary_market_from_outcomes hash os ts ≡ none
unfolding binary_market_from_outcomes
binary-other hash [] ts h = refl
binary-other hash (o ∷ []) ts h = refl
binary-other hash (o1 ∷ o2 ∷ o3 ∷ os) ts h = refl
binary-other hash (o1 ∷ o2 ∷ []) [] h = refl
binary-other hash (o1 ∷ o2 ∷ []) (t ∷ []) h = refl
binary-other hash (o1 ∷ o2 ∷ []) (t1 ∷ t2 ∷ t3 ∷ ts) h = refl
binary-other hash (o1 ∷ o2 ∷ []) (t1 ∷ t2 ∷ []) h = cc

module _ (decode : String → Option (List String)) where
  pair_of-binary :
      (hash : String) (ts os : List String)
      → pair_of decode hash ts os ≡ binary_market_from_outcomes hash os ts
  unfolding pair_of binary_market_from_outcomes
  pair_of-binary hash (t1 ∷ t2 ∷ []) (o1 ∷ o2 ∷ []) = ground arith
  pair_of-binary hash (t1 ∷ t2 ∷ []) [] = refl
  pair_of-binary hash (t1 ∷ t2 ∷ []) (o ∷ []) = refl
  pair_of-binary hash (t1 ∷ t2 ∷ []) (o1 ∷ o2 ∷ o3 ∷ os) = refl
  pair_of-binary hash [] os = sym (binary-other hash os [] refl)
  pair_of-binary hash (t ∷ []) os = sym (binary-other hash os (t ∷ []) refl)
  pair_of-binary hash (t1 ∷ t2 ∷ t3 ∷ ts) os = sym (binary-other hash os (t1 ∷ t2 ∷ t3 ∷ ts) refl)

  -- The two sources of markets agree: a Gamma market whose tokens and outcomes can be read is parsed as
  -- the stream's `binary_market_from_outcomes` reads the same outcomes and assets.
  pub parse_market_lem :
      (r : RawMarket) (ts os : List String)
      → into_strings decode r.clob_token_ids ≡ some ts
      → into_strings decode r.outcomes ≡ some os
      → parse_market decode r ≡ binary_market_from_outcomes r.condition_id os ts
  unfolding parse_market
  parse_market_lem r ts os h g = rw (h, parse_market) (rw g (pair_of-binary r.condition_id ts os))

  fetch_pages_lem :
      (page : ℕ → Result GammaError (List RawMarket)) (fuel offset : ℕ) (all : List Market)
      → max_offset ≤ offset + fuel * fetch_batch_size
      → offset < max_offset
      → (r : Result GammaError (List Market)) × (fetch_pages decode page fuel offset all ≡ some r)
  unfolding fetch_pages
  fetch_pages_lem page zero offset all h g = absurd (omega arith)
  fetch_pages_lem page (suc fuel) offset all h g = elim (Result-cases (page offset)) [
    | inr (e, failed) ↦ (err e, rw (failed, fetch_pages) refl)
    | inl (raw, answered) ↦
        let all1 = parse_page decode raw all in
        elim (Bool-cases (ltb (length raw) fetch_batch_size)) [
          | inl last ↦ (ok all1, rw (answered, fetch_pages) (rw last refl))
          | inr more ↦ elim (Bool-cases (leb max_offset (offset + fetch_batch_size))) [
            | inl stop ↦ (ok all1, rw (answered, fetch_pages) (rw more (rw stop refl)))
            | inr next ↦
                let (r, e) =
                  fetch_pages_lem page fuel (offset + fetch_batch_size) all1 (omega arith)
                    (ground (arith, next)) in
                (r, rw (answered, fetch_pages) (rw more (rw next e)))
          ]
        ]
  ]

  -- The paging ends within 120 requests, whatever the server answers.
  pub fetch_active_markets_lem :
      (page : ℕ → Result GammaError (List RawMarket))
      → (r : Result GammaError (List Market)) × (fetch_active_markets decode page ≡ some r)
  unfolding fetch_active_markets
  fetch_active_markets_lem page = fetch_pages_lem page 120 0 [] (omega arith) (omega arith)
