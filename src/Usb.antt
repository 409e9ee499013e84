-- ===== src/Usb.antt =====
-- The reader of the kernel's events, src/wcmUSB.c: the start of a tablet, the queue of a frame's events,
-- the channel of a tool, and the parsers of single events.
pub mod Parse
pub mod Queue
pub mod Channels
pub mod Event
pub mod ToolType
pub mod Fields
pub mod Tablet
pub mod Dispatch
pub mod Models
pub mod Keys
pub mod Setup
pub mod AxisRanges
pub mod Init
mod Tests
