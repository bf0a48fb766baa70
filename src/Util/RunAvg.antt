-- ===== src/Util/RunAvg.antt =====
-- struct runavg of src/iptfs.h, and runavg_new and runavg_add of src/util.c.
pub mod Laws
pub mod History
use iptfs.Prelude.{
  ℕ, ◌+◌, ◌-◌, ◌/◌, ◌%◌, Bool, true, false, not, ◌&&◌, List, get_or, set, replicate, ltb, ◌==◌,
  if◌then◌else◌, u32,
}

-- `values` is the array of `runlen` elements behind the struct.
pub record RunAvg : Type 0 where
  pub runlen : ℕ
  pub values : List ℕ
  pub ticks : ℕ
  pub index : ℕ
  pub average : ℕ
  pub total : ℕ
  pub min_value : ℕ

-- `xzmalloc` clears all that is not set; that it cannot get memory is not modelled.
unfoldable pub runavg_new : ℕ → ℕ → RunAvg
runavg_new runlen min_value = record {
  runlen = runlen;
  values = replicate runlen 0;
  ticks = 0;
  index = 0;
  average = 0;
  total = 0;
  min_value = min_value;
}

-- The oldest value leaves the total once the array has been filled.
abbrev remove_oldest : RunAvg → ℕ
remove_oldest avg =
    if not (avg.ticks == 0)
    then (avg.total + u32 - get_or avg.values avg.index 0) % u32
    else avg.total

-- `avg->average`, from the new total, ticks and index.
abbrev new_average : RunAvg → ℕ → ℕ → ℕ → ℕ
new_average avg total ticks index =
    let average = (if not (ticks == 0) then total / avg.runlen else total / index) in
    if not (total == 0) && ltb average avg.min_value then avg.min_value else average

-- The new state beside the result.
unfoldable pub runavg_add : RunAvg → ℕ → Bool × RunAvg
runavg_add avg value =
    let total = (remove_oldest avg + value) % u32 in
    let values = set avg.values avg.index value in
    let ticked = avg.index + 1 == avg.runlen in
    let index = (if ticked then 0 else avg.index + 1) in
    let ticks = (if ticked then (avg.ticks + 1) % u32 else avg.ticks) in
    (
      ticked,
      record avg {
        values = values;
        ticks = ticks;
        index = index;
        total = total;
        average = new_average avg total ticks index;
      },
    )

-- Adding the values of a list in order.
pub add_all : RunAvg → List ℕ → RunAvg
add_all avg List.[] = avg
add_all avg (List.◌∷◌ v vs) = add_all (runavg_add avg v).1 vs
