-- ===== src/Routes/Bounds.antt =====
-- The page that `get_events` of app/routers/webhooks.py answers.
use mathlib.Core.List.{Mem}
use webhook_ingestion_servic.Prelude.{
  ℕ, ◌≤◌, ◌≡◌, refl, subst, ap, inl, inr, String, Option, none, some, List, length, ℤ, pos, negsuc,
  arith, Bool-cases,
}
use mathlib.Core.Option.{some-injective}
use webhook_ingestion_servic.Events.{Event}
use webhook_ingestion_servic.Runtime.{Runtime, World, Outcome, ok, raise, pure, continue}
use webhook_ingestion_servic.Security.{require_api_key}
use webhook_ingestion_servic.Security.ApiKey.{require_api_key_unchanged}
use webhook_ingestion_servic.Crud
use webhook_ingestion_servic.Crud.Reads.{
  IsOrderBy, IsDescending, IsListed, Lists, list_events-Lists,
}
use webhook_ingestion_servic.Routes.{
  HttpRequest, EventsListOut, limit_query, offset_query, source_query, list_page, get_events,
}

pub limit_query_range : (z : ℤ) (n : ℕ) → limit_query z ≡ some n → (z ≡ pos n) × (1 ≤ n) × (n ≤ 100)
unfolding limit_query
limit_query_range (pos k) n h = ground arith
limit_query_range (negsuc k) n h = absurd (cc)

offset_query_range : (z : ℤ) (n : ℕ) → offset_query z ≡ some n → z ≡ pos n
unfolding offset_query
offset_query_range (pos k) n h = ap pos (some-injective k n h)
offset_query_range (negsuc k) n h = absurd (cc)

-- A page that was answered: its limit is the one asked for and from 1 to 100, its offset is the one
-- asked for, and it has at most that many rows of the source, newest first.
pub record IsPage (limit offset : ℤ) (source : Option String) (w : World) (out : EventsListOut)
    : Type 0 where
  pub limit_asked : limit ≡ pos out.limit
  pub limit_low : 1 ≤ out.limit
  pub limit_high : out.limit ≤ 100
  pub offset_asked : offset ≡ pos out.offset
  pub short : length out.items ≤ out.limit
  pub newest_first : IsDescending out.items
  pub from_table : (e : Event) → Mem e out.items → IsListed source w.events e

module _ (rt : Runtime) (order : IsOrderBy rt.order_by_received_at_desc) where
  abbrev Answers : ℤ → ℤ → Option String → World → Outcome EventsListOut × World → Type 0
  Answers limit offset source w (ok out, v) =
      IsPage limit offset source w out × (v.events ≡ w.events)
  Answers limit offset source w (raise x, v) = v.events ≡ w.events

  listed_page :
      (limit offset : ℤ) (source : Option String) (n k : ℕ) (w : World)
      (p : Outcome (List Event) × World)
      → (limit ≡ pos n) × (1 ≤ n) × (n ≤ 100)
      → offset ≡ pos k
      → Lists n source w p
      → Answers limit offset source w
          (continue (λ items. pure (record { items = items; limit = n; offset = k })) p.0 p.1)
  listed_page limit offset source n k w (ok items, v) (a, b, c) at (short, sorted, members, kept) =
      (
        record {
          limit_asked = a;
          limit_low = b;
          limit_high = c;
          offset_asked = at;
          short = short;
          newest_first = sorted;
          from_table = members;
        },
        kept,
      )
  listed_page limit offset source n k w (raise x, v) range at (kind, kept) = kept

  list_page-Answers :
      (limit offset : ℤ) (source : Option String) (a b : Option ℕ) (w : World)
      → limit_query limit ≡ a
      → offset_query offset ≡ b
      → Answers limit offset source w (list_page rt source a b w)
  unfolding list_page
  list_page-Answers limit offset source none b w p q = refl
  list_page-Answers limit offset source (some n) none w p q = refl
  list_page-Answers limit offset source (some n) (some k) w p q =
      elim (Bool-cases (source_query source)) [
        | inl fits ↦ rw fits (
            listed_page limit offset source n k w (Crud.list_events rt n k source w)
              (limit_query_range limit n p) (offset_query_range offset k q)
              (list_events-Lists rt n k source w order))
        | inr outside ↦ rw outside refl
      ]

  keyed :
      (limit offset : ℤ) (source : Option String) (w : World) (p : Outcome (Unit {0}) × World)
      → p.1 ≡ w
      → Answers limit offset source w
          (continue (λ _. list_page rt source (limit_query limit) (offset_query offset)) p.0 p.1)
  keyed limit offset source w (ok done, v) same =
      rw same (
        list_page-Answers limit offset source (limit_query limit) (offset_query offset) w refl refl)
  keyed limit offset source w (raise x, v) same = ap (λ (u : World). u.events) same

  get_events-Answers :
      (request : HttpRequest) (limit offset : ℤ) (source : Option String) (w : World)
      → Answers limit offset source w (get_events rt request limit offset source w)
  unfolding get_events
  get_events-Answers request limit offset source w =
      keyed limit offset source w (require_api_key rt (request.header "X-API-KEY") w)
        (require_api_key_unchanged rt (request.header "X-API-KEY") w)

  -- A page that GET /events answers has the limit and the offset of the query, the limit from 1 to
  -- 100, and at most that many rows of the table and the source, newest first; the table is not
  -- changed. Assumed of the database: ORDER BY permutes the rows into descending order.
  pub get_events-IsPage :
      (request : HttpRequest) (limit offset : ℤ) (source : Option String) (w v : World)
      (out : EventsListOut)
      → get_events rt request limit offset source w ≡ (ok out, v)
      → IsPage limit offset source w out × (v.events ≡ w.events)
  get_events-IsPage request limit offset source w v out e =
      subst (Answers limit offset source w) e (get_events-Answers request limit offset source w)
