-- ===== src/Engine/Tape.antt =====
-- engine/tape.py: an event of the tape on the relative clock.
pub mod Order
use memeval.Prelude.{
  ℕ, String, Bool, true, false, Option, none, some, List, [], ◌∷◌, Result, ok, raise_if, ◌>>=◌,
  ◌>>◌, ◌&&◌, ◌||◌, if◌then◌else◌,
}
use memeval.Prelude.Int.{ℤ, ◌-ℤ◌, ltb_ℤ, leb_ℤ, eqb_ℤ}
use memeval.Prelude.Dict.{Dict}

pub data Kind : Type 0 where
  swap mint burn adjust sync cl_init cl_modify cl_swap halt unhalt restriction discovery : Kind

-- `payload` holds the truth value of each entry, and `payload_asset` the text of its entry "asset".
pub record RelEvent : Type 0 where
  pub seq : ℤ
  pub block : ℤ
  pub log_index : ℤ
  pub time_ms : ℤ
  pub kind : Kind
  pub pool : String
  pub tx : Option String
  pub wallet : Option String
  pub asset_in : Option String
  pub amount_in : Option ℤ
  pub amount_out_recorded : Option ℤ
  pub amount0 : Option ℤ
  pub amount1 : Option ℤ
  pub reserve0 : Option ℤ
  pub reserve1 : Option ℤ
  pub payload : Dict String Bool
  pub payload_asset : Option String
  pub available_ms : Option ℤ
  pub availability_basis : String
  pub sqrt_price_x96 : Option ℤ
  pub tick : Option ℤ
  pub tick_lower : Option ℤ
  pub tick_upper : Option ℤ
  pub liquidity_delta : Option ℤ
  pub sqrt_price_x96_after : Option ℤ
  pub liquidity_after : Option ℤ
  pub tick_after : Option ℤ
  pub fee_pips : Option ℕ

-- A validated row: the fields of an event, with absolute times in place of its own two. Its numbers
-- are parsed already.
pub record TapeEvent : Type 0 where
  pub event : RelEvent
  pub time_utc_ms : ℤ
  pub available_utc_ms : Option ℤ

unfoldable pub relative : ℤ → TapeEvent → RelEvent
relative start e = record e.event {
  time_ms = e.time_utc_ms -ℤ start;
  available_ms = elim e.available_utc_ms [ none ↦ none | some t ↦ some (t -ℤ start) ];
}

-- `(r.block, r.log_index, r.seq)`, compared as tuples are
unfoldable pub key_leb : RelEvent → RelEvent → Bool
key_leb a b =
    ltb_ℤ a.block b.block
    || eqb_ℤ a.block b.block
      && (ltb_ℤ a.log_index b.log_index || eqb_ℤ a.log_index b.log_index && leb_ℤ a.seq b.seq)

-- `out.sort(key=…)`, which is stable
unfoldable pub insert_event : RelEvent → List RelEvent → List RelEvent
insert_event e [] = e ∷ []
insert_event e (x ∷ xs) =
    let rest = insert_event e xs in if key_leb e x then e ∷ x ∷ xs else x ∷ rest

unfoldable pub sort_events : ℤ → List TapeEvent → List RelEvent
unfolding insert_event relative
sort_events start [] = []
sort_events start (e ∷ events) = insert_event (relative start e) (sort_events start events)

pub data TapeError : Type 0 where
  not_monotone : TapeError

-- the loop over neighbouring events
unfoldable pub check_times : List RelEvent → Result TapeError (Unit {0})
check_times [] = ok tt
check_times (x ∷ []) = ok tt
check_times (x ∷ y ∷ events) = do
  raise_if (ltb_ℤ y.time_ms x.time_ms) not_monotone
  check_times (y ∷ events)

unfoldable pub to_relative : List TapeEvent → ℤ → Result TapeError (List RelEvent)
unfolding sort_events check_times
to_relative events start = check_times (sort_events start events) >> ok (sort_events start events)
