-- ===== src/Config.antt =====
-- The configuration of a device: src/wcmConfig.c, the options of src/wcmValidateDevice.c, and the list of
-- devices of src/x11/xf86Wacom.c.
pub mod Types
pub mod Kinds
pub mod Features
pub mod Serials
pub mod Options
pub mod PreInit
pub mod Bounds
pub mod Parsing
pub mod Linking
mod Tests
