-- ===== src/Tests.antt =====
-- Concrete runs, with the parameters instantiated.
mod PathTests
mod OnionToy
mod OnionTests
mod TreeTests
mod FormatTests
mod RingTests
mod RingClientTests
