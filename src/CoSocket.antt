-- ===== src/CoSocket.antt =====
-- CoSocket/net/CoSocket.h and CoSocket.cpp: the scheduler of coroutines over sockets. `State` holds
-- its members, `Events` the watchers of the descriptors, `Blocking` the calls that wait, `Transfer`
-- the loops over them, `Conditions` the condition variables and `Loop` the event loop.
pub mod State
pub mod Events
pub mod Blocking
pub mod Transfer
pub mod Conditions
pub mod Loop
pub mod Buffer
