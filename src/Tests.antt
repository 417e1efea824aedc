-- ===== src/Tests.antt =====
-- The theorems at concrete inputs.
mod MessageTests
mod PollerTests
mod SocketTests
mod OptionTests
mod ZapTests
mod AuthTests
mod ContextTests
mod LoopTests
mod ReactorTests
mod CommonTests
mod ClientTests
mod ActorTests
mod PtyTests
