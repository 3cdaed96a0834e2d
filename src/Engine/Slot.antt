-- ===== src/Engine/Slot.antt =====
-- The slots of a run and the engine around them: software/core/engine/async_runtime_loop.py and
-- the run of async_engine.py.
mod Attempt
mod Steps
mod Selection
mod Defs
mod Effects
mod Keeps
mod Stretches
mod Turns
mod History
mod Calls
mod Runs
mod Spares
mod Others
mod Own
mod Outcomes
mod Tidy
mod Moves
mod Places
mod Labels
mod Leaks
mod Supply
mod Tokens
mod Funds
mod Waiting
mod Errors
mod Ranks
mod Stopping
mod Tests
