-- ===== src/Markets.antt =====
-- shared/rust/polymarket-orderbook-rust/src/markets: which markets are binary, the pages of the Gamma API
-- (gamma.rs) and the cache in Redis (redis_cache.rs). The HTTP and Redis servers' answers and
-- serde_json's parser are parameters.
pub mod Gamma
pub mod Payloads
pub mod Stream
pub mod Replay
pub mod Entries
pub mod Listening
pub mod Start
pub mod Samples
mod Tests
use polymarket_orderbook_col.Base.{
  ℕ, suc, zero, ◌+◌, String, Option, none, some, List, [], ◌∷◌, ◌++◌, map, Bool, true, false, ltb,
  leb, ◌=?◌, string_key, if◌then◌else◌, length, Result, ok, err,
}
use polymarket_orderbook_col.Events.{Market}

-- Two outcomes, two assets: the first asset is the YES asset exactly if the first outcome is "Yes".
unfoldable pub binary_market_from_outcomes :
    String → (outcomes asset_ids : List String) → Option Market
binary_market_from_outcomes hash (o1 ∷ o2 ∷ []) (a1 ∷ a2 ∷ []) = some (
    if o1 =? "Yes"
    then (record { hash = hash; yes_asset = a1; no_asset = a2 })
    else (record { hash = hash; yes_asset = a2; no_asset = a1 }))
binary_market_from_outcomes hash _ _ = none

pub data StringOrJsonArray : Type 0 where
  array : List String → StringOrJsonArray
  encoded : String → StringOrJsonArray
  empty : StringOrJsonArray

pub record RawMarket : Type 0 where
  pub condition_id : String
  pub clob_token_ids : StringOrJsonArray
  pub outcomes : StringOrJsonArray

-- Why a fetch fails. The texts of the errors are left out.
pub data GammaError : Type 0 where
  request_failed bad_status bad_json : GammaError

abbrev pub fetch_batch_size : ℕ
fetch_batch_size = 500

abbrev pub max_offset : ℕ
max_offset = 60_000

module _ (decode : String → Option (List String)) where
  unfoldable pub into_strings : StringOrJsonArray → Option (List String)
  into_strings (array v) = some v
  into_strings (encoded s) = if s =? "" then some [] else decode s
  into_strings empty = some []

  unfoldable pub pair_of : String → List String → List String → Option Market
  pair_of hash (t1 ∷ t2 ∷ []) (o1 ∷ o2 ∷ []) =
      let (yes_token, no_token) = (if o1 =? "Yes" then (t1, t2) else (t2, t1)) in
      some (record { hash = hash; yes_asset = yes_token; no_asset = no_token })
  pair_of hash _ _ = none

  -- `parse_market`: the tokens first, then the outcomes.
  unfoldable pub parse_market : RawMarket → Option Market
  unfolding into_strings pair_of
  parse_market r = elim (into_strings r.clob_token_ids) [
    | none ↦ none
    | some clob_tokens ↦ elim (into_strings r.outcomes) [
      | none ↦ none
      | some outcomes ↦ pair_of r.condition_id clob_tokens outcomes
    ]
  ]

  -- The loop over the markets of a page.
  unfoldable pub parse_page : List RawMarket → List Market → List Market
  unfolding parse_market
  parse_page [] all = all
  parse_page (r ∷ rs) all = elim (parse_market r) [
    | none ↦ parse_page rs all
    | some m ↦ parse_page rs (all ++ m ∷ [])
  ]

  -- The paging loop, by fuel: `none` where it runs out. `page` is what the server answers for an offset.
  unfoldable pub fetch_pages :
      (page : ℕ → Result GammaError (List RawMarket)) (fuel offset : ℕ)
      → List Market
      → Option (Result GammaError (List Market))
  unfolding parse_page
  fetch_pages page zero offset all = none
  fetch_pages page (suc fuel) offset all = elim (page offset) [
    | err e ↦ some (err e)
    | ok raw ↦
        let all1 = parse_page raw all in
        let rest = fetch_pages page fuel (offset + fetch_batch_size) all1 in
        if ltb (length raw) fetch_batch_size
        then some (ok all1)
        else if leb max_offset (offset + fetch_batch_size)
        then some (ok all1)
        else rest
  ]

  -- `fetch_active_markets`, with fuel for 120 pages.
  unfoldable pub fetch_active_markets :
      (ℕ → Result GammaError (List RawMarket)) → Option (Result GammaError (List Market))
  unfolding fetch_pages
  fetch_active_markets page = fetch_pages page 120 0 []

-- redis_cache.rs.
pub record CacheEntry : Type 0 where
  pub market : String
  pub yes_asset_id : String
  pub no_asset_id : String

abbrev pub market_of : CacheEntry → Market
market_of e = record { hash = e.market; yes_asset = e.yes_asset_id; no_asset = e.no_asset_id }

-- `load`: no markets if the key does not exist, an error if Redis or the document is bad.
unfoldable pub load :
    (String → Option (List CacheEntry)) → Option (Option String) → Option (List Market)
load parse none = none
load parse (some none) = some []
load parse (some (some document)) = elim (parse document) [
  | none ↦ none
  | some entries ↦ some (map market_of entries)
]
