-- ===== src/Tests.antt =====
-- Concrete runs of the models, and the results of the modules at concrete inputs.
mod Channels
mod Codecs
mod Frames
mod Deadlines
mod Poller
mod Scheduler
mod Rounds
mod Steps
mod Http
mod Dispatch
mod Echo
mod Programs
mod Workers
