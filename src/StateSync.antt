-- ===== src/StateSync.antt =====
-- internal/statesync/reactor.go and internal/snapfetch/eventmux.go: the state-sync reactor, and the
-- events it publishes.
pub mod Wire
pub mod Reactor
pub mod Mux
