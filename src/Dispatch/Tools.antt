-- ===== src/Dispatch/Tools.antt =====
-- Which tool an event is for, and whether its device gets the pointer: `findTool`,
-- `check_arbitrated_control` and the saving of states in `wcmEvent` of src/wcmCommon.c.
pub mod Find
use xf86_input_wacom.Prelude.{
  ℕ, ◌+◌, ◌-◌, ◌%◌, ◌^◌, Bool, true, false, not, ◌&&◌, ◌||◌, Option, none, some, List, [], ◌∷◌,
  ◌++◌, take, drop, ltb, ◌==◌, if◌then◌else◌,
}
use xf86_input_wacom.Prelude.Int.{ℤ, ◌==ℤ◌}
use xf86_input_wacom.State.{
  DeviceState, Device, Channel, Common, Tool, is_type, touch_id, cursor_id, pad_id,
}

-- The loop of `findTool`, with the default found so far.
unfoldable pub find_from : Option Tool → List Tool → DeviceState → Option Tool
find_from default [] ds = default
find_from default (tool ∷ tools) ds =
    let rest = find_from default tools ds in
    let rest' = find_from (some tool) tools ds in
    if tool.typeid == ds.device_type
    then (if tool.serial == ds.serial_num
        then some tool
        else if tool.serial == 0
        then rest'
        else rest)
    else rest

-- `findTool`
unfoldable pub find_tool : Common → DeviceState → Option Tool
find_tool c ds = find_from none c.tools ds

-- `ds->time - active->oldState.time` of two `unsigned int`s
abbrev pub elapsed : ℕ → ℕ → ℕ
elapsed now before = (now + 2 ^ 32 - before) % 2 ^ 32

-- `check_arbitrated_control`
unfoldable pub check_arbitrated_control : Option Device → Device → DeviceState → Bool
check_arbitrated_control none priv ds = not (is_type pad_id priv)
check_arbitrated_control (some active) priv ds =
    if is_type pad_id priv
    then false
    else if active.old_state.device_id ==ℤ ds.device_id
    then true
    else if is_type cursor_id active
    then ltb 100 (elapsed ds.time active.old_state.time) && (active.old_state.buttons == 0)
    else if is_type cursor_id priv
    then false
    else not (is_type touch_id priv)

-- The `memmove` of `wcmEvent`: the states move up by one, the first `raw_sample` of them, and the
-- new one comes first.
unfoldable pub save_state : Common → Channel → DeviceState → Channel
save_state c ch ds = record ch {
  states = ds ∷ take (c.raw_sample - 1) ch.states ++ drop c.raw_sample ch.states;
  nsamples = if ltb ch.nsamples c.raw_sample then ch.nsamples + 1 else ch.nsamples;
}
