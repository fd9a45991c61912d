-- ===== src/Examples.antt =====
-- Tests of the model on hands that can be followed in holdem/engine.py, and the theorems at inputs
-- that meet their hypotheses.
mod Money
mod Table
mod Rounds
mod Hands
mod Scores
mod Awards
mod Settlement
mod Numbering
mod Replicas
mod Cashouts
mod Workers
mod Waits
mod Showdowns
