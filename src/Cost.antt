-- ===== src/Cost.antt =====
-- packages/delta/src/shared/cost.ts, with `Cost`, `Money` and `ContentCost` of shared/types.ts.
-- The amounts of the program are counts (tokens, milliseconds, bytes, minor currency units): natural
-- numbers here. Fractions and negative amounts, which `number` would allow, are left out.
pub mod Laws
use delta_agents.Common.{ℕ, ◌+◌, ◌-◌, String, Bool, false, Option, none, some, ltb, ◌||◌, or_else}

pub data UnitType : Type 0 where
  tokens pages images bytes : UnitType

pub record Money : Type 0 where
  pub value : ℕ
  pub currency : String

pub record ContentCost : Type 0 where
  pub count : ℕ
  pub bytes : ℕ
  pub unit_type : Option UnitType
  pub item_size : Option ℕ

pub record Cost : Type 0 where
  pub tokens : ℕ
  pub duration_ms : ℕ
  pub memory : Option ℕ
  pub latency : Option ℕ
  pub money : Option Money
  pub content : Option ContentCost

abbrev pub zero_cost : Cost
zero_cost = record {
  tokens = 0;
  duration_ms = 0;
  memory = none;
  latency = none;
  money = none;
  content = none;
}

-- an optional axis is in the sum when at least one side carries it
pub add_axis : Option ℕ → Option ℕ → Option ℕ
add_axis none none = none
add_axis a b = some (or_else a 0 + or_else b 0)

pub add_money : Option Money → Option Money → Option Money
add_money (some a) (some b) = some (record { value = a.value + b.value; currency = a.currency })
add_money (some a) none = some a
add_money none b = b

pub first_unit : Option UnitType → Option UnitType → Option UnitType
first_unit (some u) _ = some u
first_unit none u = u

-- the sum keeps no `itemSize`
pub add_content : Option ContentCost → Option ContentCost → Option ContentCost
unfolding first_unit
add_content none none = none
add_content none (some b) =
    some (record { count = b.count; bytes = b.bytes; unit_type = b.unit_type; item_size = none })
add_content (some a) none =
    some (record { count = a.count; bytes = a.bytes; unit_type = a.unit_type; item_size = none })
add_content (some a) (some b) = some (record {
  count = a.count + b.count;
  bytes = a.bytes + b.bytes;
  unit_type = first_unit a.unit_type b.unit_type;
  item_size = none;
})

unfoldable pub add_costs : Cost → Cost → Cost
unfolding add_axis add_money add_content
add_costs a b = record {
  tokens = a.tokens + b.tokens;
  duration_ms = a.duration_ms + b.duration_ms;
  memory = add_axis a.memory b.memory;
  latency = add_axis a.latency b.latency;
  money = add_money a.money b.money;
  content = add_content a.content b.content;
}

abbrev pub money_value : Option Money → ℕ
money_value none = 0
money_value (some m) = m.value

-- an axis that the budget does not declare is unlimited
unfoldable pub axis_over : ℕ → Option ℕ → Bool
axis_over spent none = false
axis_over spent (some limit) = ltb limit spent

unfoldable pub money_over : ℕ → Option Money → Bool
money_over spent none = false
money_over spent (some limit) = ltb limit.value spent

unfoldable pub is_over_budget : Cost → Cost → Bool
unfolding axis_over money_over
is_over_budget spent budget =
    ltb budget.tokens spent.tokens
    || (ltb budget.duration_ms spent.duration_ms
        || (axis_over (or_else spent.memory 0) budget.memory
            || (axis_over (or_else spent.latency 0) budget.latency
                || money_over (money_value spent.money) budget.money)))

-- `Math.max(0, total - spent)` is the truncated subtraction of the natural numbers
pub axis_left : Option ℕ → Option ℕ → Option ℕ
axis_left none spent = none
axis_left (some total) spent = some (total - or_else spent 0)

pub money_left : Option Money → Option Money → Option Money
money_left none spent = none
money_left (some total) spent =
    some (record { value = total.value - money_value spent; currency = total.currency })

unfoldable pub remaining_cost : Cost → Cost → Cost
unfolding axis_left money_left
remaining_cost total spent = record {
  tokens = total.tokens - spent.tokens;
  duration_ms = total.duration_ms - spent.duration_ms;
  memory = axis_left total.memory spent.memory;
  latency = axis_left total.latency spent.latency;
  money = money_left total.money spent.money;
  content = none;
}
