-- ===== src/Lib.antt =====
-- A model of xf86-input-wacom, the X driver for Wacom tablets: its path of events, and how a device is
-- configured and set.
--
-- A tablet's record (`Common`) is shared by its subdevices (`Device`): stylus, eraser, cursor, pad and
-- touch. A reader of the kernel's events (src/wcmUSB.c) collects a state for each tool in a channel;
-- src/wcmCommon.c finds the device that the state is for, settles which tool has the pointer, has
-- src/wcmTouchFilter.c look for gestures, works out the pressure, filters the position, drops what
-- changed too little, and sends the events of what is left to the front end.
--
-- Before that, a device is given its type, its options and its tablet's features (src/wcmConfig.c and
-- src/wcmValidateDevice.c), and the tablet is probed and started (src/wcmUSB.c). Later on, clients set and
-- read its properties (src/x11/xf86WacomProperties.c).
--
-- - Prelude: the libraries' names; lists and tests on the native numbers; Prelude/Int is C's `int`,
--   exact but for the casts; Prelude/Bits is masks of one bit; Prelude/Text is strings of ASCII, with
--   what the source uses of sscanf and strtok.
-- - State: the records of src/xf86WacomDefs.h; State/Zero has them with every field zero.
-- - Axes: the axes of an event, of src/WacomInterface.h, and their valuators (src/x11/xf86Wacom.c).
-- - Scale: `wcmScaleAxis` and `wcmRotateAndScaleCoordinates` of src/wcmCommon.c.
-- - PressureCurve: `filterLine` of src/wcmPressureCurve.c. Its loop runs on fuel, one more than the
--   largest coordinate, as every round moves the leading coordinate by one toward its end. A
--   write outside of the table is the outcome `fault`. Setting has `wcmSetPressureCurve` of
--   src/wcmFilter.c, with the curve that is drawn as a parameter (`Drawing`).
-- - Filter: the noise filter of src/wcmFilter.c.
-- - Session: the functions of src/wcmCommon.c that send events, as functions on a session: the
--   device, its tablet, and the calls into the front end, the last one first. Mode has the mode and the
--   default actions, Action `sendAction`, Scroll panscroll and the wheels, Buttons `wcmSendButtons` and
--   `wcmSendKeys`, EventAxes the axes of a state, Events `wcmSendEvents`. Each C function is one
--   function here, with its branches as helpers.
-- - Dispatch: `commonDispatchDevice` of src/wcmCommon.c, with the suppression, the pressure, and the
--   choice of a tool as children.
-- - Packet: `wcmReadPacket` of src/wcmCommon.c, with the model's parser as a parameter. Its loop runs on
--   fuel, one more than the bytes in the buffer, as every round uses a byte at least.
-- - Gesture: src/wcmTouchFilter.c. Gesture has the modes, the fingers' states and the taps, Scroll the
--   scrolling and the zooming, Multitouch the events of single touches, Filter `wcmGestureFilter`, each
--   block between its labels as a function. Distances and angles are floating point and parameters.
-- - Arbiter: `wcmEvent` of src/wcmCommon.c on a tablet's record and its subdevices, which are a list;
--   `WACOM_DRIVER.active` is a place in it.
-- - Usb: src/wcmUSB.c. Parse has `usbParse`, Queue the queue that collects a frame of events, Event the
--   events by name, ToolType the type of a frame's tool, Channels the channel of a tool, Fields the
--   parsers of single events, Dispatch `usbDispatchEvents`. The codes of events and the size of an event
--   are the kernel's, and parameters, as are the answers of ioctl. A channel number of -1 is `none`; where
--   C then writes before the array, nothing is written. `wcmEvent` is an interface (`IsHandler`), which
--   Dispatch/Handler fills with the model of Arbiter; its calls are listed with their arguments.
--   Models is the table of models, Keys the keys that are probed, Setup the choice of a model and its
--   protocol, Init the start of a tablet with the ranges of its axes (AxisRanges).
-- - Life: of src/wcmCommon.c, the references to a tablet's record, its start and its rotation. Life/References
--   has the calls of its holders as steps.
-- - Config: of src/wcmConfig.c, the type of a device and its flags (Types), the features of a tablet
--   (Features) and the links between pen and touch (Linking, with `wcmForeachDevice` of
--   src/x11/xf86Wacom.c as a walk along the list of devices); of src/wcmValidateDevice.c, the serial
--   numbers (Serials) and the other options (Options, PreInit), which are looked up by name.
-- - Hotplug: src/wcmValidateDevice.c, which types a device gets; the strings of options and types are data.
-- - Properties: of src/x11/xf86WacomProperties.c, the scale of pressure, one property of actions
--   (Properties itself, Actions), the properties of numbers (Forms, Values: each branch of `wcmSetProperty` is a
--   function), and the lists of properties of actions (Lists), with the server's properties as a record.
--
-- Log messages are left out, and so are the X server's side of a call and allocation.
-- Not modelled: `wcmPreInit`, `wcmUnInit` and the opening of a device in src/wcmConfig.c and
-- src/x11/xf86Wacom.c, the creation of the properties, the probing of a device node, the second front end
-- in src/gwacom, and the programs in tools. The curve that `filterCurveToLine` divides is floating point.
-- Where C's arithmetic on `int` would overflow, the model goes on with exact integers.
-- Where C would read outside of the table of a pressure curve, which it leaves open, the model has -1, which
-- is no pressure.
pub mod Prelude
pub mod State
pub mod Axes
pub mod Session
pub mod Scale
pub mod PressureCurve
pub mod Filter
pub mod Dispatch
pub mod Packet
pub mod Usb
pub mod Gesture
pub mod Arbiter
pub mod Life
pub mod Hotplug
pub mod Properties
pub mod Config
