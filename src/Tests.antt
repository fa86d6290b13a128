-- ===== src/Tests.antt =====
-- Runs of the modelled code on concrete inputs, and each theorem at an input that meets its
-- hypotheses.
mod BufferTests
mod RapidTests
mod HeapTests
mod TimerTests
mod RedisTests
mod TimerMgrTests
mod SequenceTests
mod CoroutineTests
mod RingTests
mod HttpTests
mod IniFilesTests
mod TextTests
mod ClientTests
mod ConnectManagerTests
mod ServiceTests
mod EventTableTests
