-- ===== src/Io.antt =====
-- src/ugds_io.cpp: reads and writes. `Types` has the data, `Transfer` the parts of a round, `Loop`
-- the loop and `Entry` the functions of the interface. `stuck` stands for undefined behaviour (an
-- index outside an array, a division by zero) and for a loop out of fuel.
pub mod Types
pub mod Transfer
pub mod Loop
pub mod Entry
pub mod Ends
pub mod Slots
pub mod Pointers
pub mod Coverage
pub mod Request
pub mod Chunk
pub mod Rounds
pub mod Served
pub mod Checks
pub mod Whole
mod Tests
