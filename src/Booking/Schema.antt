-- ===== src/Booking/Schema.antt =====
-- The tables as bookings/models.py declares them and as bookings/migrations/0001_initial.py creates
-- them: columns and constraints as data, and the rows that they let in, as PostgreSQL checks them, the
-- types, lengths and ranges of the cells included. Texts are of characters that PostgreSQL can store
-- (not NUL), and one that is too long counts as refused, also where only spaces are in excess, which
-- PostgreSQL cuts off. `on_delete` and the names of constraints are left out.
pub mod Rows
use queue_fair.Prelude.{
  ℕ, Text, codes, Bool, true, false, ◌&&◌, not, Option, none, some, List, [], ◌∷◌, ◌==◌, leb,
  length, lookup, text_eq, if◌then◌else◌,
}

-- What a cell holds.
pub data Value : Type 0 where
  text : Text → Value
  number : ℕ → Value
  time : Text → Value

abbrev pub same_value : Value → Value → Bool
same_value (text t) (text u) = text_eq t u
same_value (number m) (number n) = m == n
same_value (time t) (time u) = text_eq t u
same_value _ _ = false

-- The cells of a row by the names of their columns.
abbrev pub Row : Type 0
Row = List (Text × Value)

pub data Field : Type 0 where
  slug : ℕ → Field
  char : ℕ → Field
  positive_integer : Field
  date_time : Field
  big_auto : Field
  foreign_key : Text → Field

-- `unique` of a primary key is true.
pub record Column : Type 0 where
  pub name : Text
  pub field : Field
  pub unique : Bool

pub data Constraint : Type 0 where
  -- CheckConstraint(Q(a__lte=F(b)))
  check_lte : Text → Text → Constraint
  -- UniqueConstraint(fields)
  unique_together : List Text → Constraint

pub record Model : Type 0 where
  pub name : Text
  pub columns : List Column
  pub constraints : List Constraint

-- class Event
abbrev pub event_model : Model
event_model = record {
  name = codes "Event";
  columns =
      record { name = codes "event_id"; field = slug 64; unique = true }
      ∷ record { name = codes "name"; field = char 200; unique = false }
      ∷ record { name = codes "capacity"; field = positive_integer; unique = false }
      ∷ record { name = codes "tickets_booked"; field = positive_integer; unique = false }
      ∷ record { name = codes "created_at"; field = date_time; unique = false }
      ∷ [];
  constraints = check_lte (codes "tickets_booked") (codes "capacity") ∷ [];
}

-- class Booking, with the primary key of default_auto_field
abbrev pub booking_model : Model
booking_model = record {
  name = codes "Booking";
  columns =
      record { name = codes "id"; field = big_auto; unique = true }
      ∷ record { name = codes "event"; field = foreign_key (codes "Event"); unique = false }
      ∷ record { name = codes "user_id"; field = char 64; unique = false }
      ∷ record { name = codes "token_jti"; field = char 64; unique = true }
      ∷ record { name = codes "created_at"; field = date_time; unique = false }
      ∷ [];
  constraints = unique_together (codes "event" ∷ codes "user_id" ∷ []) ∷ [];
}

-- The two operations of the migration.
abbrev pub create_event_model : Model
create_event_model = record {
  name = codes "Event";
  columns =
      record { name = codes "event_id"; field = slug 64; unique = true }
      ∷ record { name = codes "name"; field = char 200; unique = false }
      ∷ record { name = codes "capacity"; field = positive_integer; unique = false }
      ∷ record { name = codes "tickets_booked"; field = positive_integer; unique = false }
      ∷ record { name = codes "created_at"; field = date_time; unique = false }
      ∷ [];
  constraints = check_lte (codes "tickets_booked") (codes "capacity") ∷ [];
}

abbrev pub create_booking_model : Model
create_booking_model = record {
  name = codes "Booking";
  columns =
      record { name = codes "id"; field = big_auto; unique = true }
      ∷ record { name = codes "user_id"; field = char 64; unique = false }
      ∷ record { name = codes "token_jti"; field = char 64; unique = true }
      ∷ record { name = codes "created_at"; field = date_time; unique = false }
      ∷ record { name = codes "event"; field = foreign_key (codes "Event"); unique = false }
      ∷ [];
  constraints = unique_together (codes "event" ∷ codes "user_id" ∷ []) ∷ [];
}

abbrev pub operations : List Model
operations = create_event_model ∷ create_booking_model ∷ []

-- The table that CreateModel made.
unfoldable pub created : Text → List Model → Option Model
created name [] = none
created name (m ∷ ms) = if text_eq m.name name then some m else created name ms

-- The largest `integer` and the largest `bigint`.
abbrev pub integer_max : ℕ
integer_max = 2147483647

abbrev pub bigint_max : ℕ
bigint_max = 9223372036854775807

-- A cell of another type than its column is refused.
abbrev pub cell_fits : (Text → Value → Bool) → Field → Value → Bool
cell_fits known (slug n) (text t) = leb (length t) n
cell_fits known (char n) (text t) = leb (length t) n
cell_fits known positive_integer (number n) = leb n integer_max
cell_fits known date_time (time t) = true
cell_fits known big_auto (number n) = leb n bigint_max
cell_fits known (foreign_key model) v = known model v
cell_fits known _ _ = false

-- A column that is missing from the row is not null by default.
unfoldable pub column_fits : (Text → Value → Bool) → Column → Row → Bool
column_fits known c row = elim (lookup c.name row) [
  | none ↦ false
  | some v ↦ cell_fits known c.field v
]

unfoldable pub same_cell : Text → Row → Row → Bool
same_cell name r s = elim (lookup name r) [
  | none ↦ false
  | some v ↦ elim (lookup name s) [ none ↦ false | some w ↦ same_value v w ]
]

unfoldable pub same_cells : List Text → Row → Row → Bool
unfolding same_cell
same_cells [] r s = true
same_cells (n ∷ ns) r s = same_cell n r s && same_cells ns r s

-- No row of the table has the same cells.
unfoldable pub is_new : List Text → List Row → Row → Bool
unfolding same_cells
is_new names [] row = true
is_new names (r ∷ rs) row = not (same_cells names r row) && is_new names rs row

abbrev pub number_of : Option Value → Option ℕ
number_of (some (number n)) = some n
number_of _ = none

unfoldable pub holds : Constraint → List Row → Row → Bool
unfolding is_new
holds (check_lte a b) rows row = elim (number_of (lookup a row)) [
  | none ↦ true
  | some m ↦ elim (number_of (lookup b row)) [ none ↦ true | some n ↦ leb m n ]
]
holds (unique_together names) rows row = is_new names rows row

abbrev pub column_lets_in : (Text → Value → Bool) → Column → List Row → Row → Bool
column_lets_in known c rows row =
    column_fits known c row && (if c.unique then is_new (c.name ∷ []) rows row else true)

unfoldable pub all_columns : (Text → Value → Bool) → List Column → List Row → Row → Bool
unfolding column_fits is_new
all_columns known [] rows row = true
all_columns known (c ∷ cs) rows row =
    column_lets_in known c rows row && all_columns known cs rows row

unfoldable pub all_constraints : List Constraint → List Row → Row → Bool
unfolding holds
all_constraints [] rows row = true
all_constraints (c ∷ cs) rows row = holds c rows row && all_constraints cs rows row

-- May the row stand beside the others of its table? `known` says which keys a table has.
unfoldable pub lets_in : (Text → Value → Bool) → Model → List Row → Row → Bool
unfolding all_columns all_constraints
lets_in known m rows row =
    all_columns known m.columns rows row && all_constraints m.constraints rows row
