-- ===== src/FileClasses.antt =====
-- The classes of src/class that pass their calls on to a device file: GPIO, digital, misc and file;
-- and the memory class, which keeps its data in a ring buffer.
pub mod Gpio
pub mod Digital
pub mod Misc
pub mod RegularFile
pub mod Memory
pub mod Results
mod Tests
