-- ===== src/Lib.antt =====
-- A verification library for the poker engine, holdem/engine.py.
--
-- The engine is one class, `Engine`, that keeps the players, the positions, the betting round, the
-- deck, the board and the log of events, and changes them in place. Here its state is the record
-- `Engine` of Table.antt, with the betting fields in a record `Round` and the button and the
-- blinds in a record `Positions`, and each method is a function from a state to a state. A Python
-- exception is an error of the component's own type, in the `Result` of Base/Results.antt; a
-- refused call carries no state, since the source raises before it changes anything there.
--
-- The parts and their files, from the bottom up:
--
-- Base and its children hold what the parts share: Boolean tests on the native numbers, lists
-- indexed by them, sums of a measure, updates at one seat, and exceptions.
--
-- Cards.antt is `Card`, `FULL_DECK` and `Deck`. A deck is dealt from the end of its list. The
-- shuffle is foreign code: the shuffled deck is an argument of `start_hand`.
--
-- Evaluate.antt is `_build_straight_table`, `evaluate`, `hand_name` and `best_five`. A mask of
-- ranks is a function from bits to Booleans, and the table `_STRAIGHT_HIGH`, which holds every
-- mask, is the function that fills it.
--
-- Table.antt is `Player` and `Engine` with their queries, and Table/Log.antt the structured events
-- of `emit`. Names, playing styles and display text are left out.
--
-- Positions.antt is the dead-button rule, `_advance_positions`, and `add_chips`, `sit_out` and
-- `sit_in`.
--
-- Hand.antt is `start_hand` with `_post` and `_post_dead`: positions, antes, blinds, returning
-- seats, the straddle, the deal and the first to act.
--
-- Betting.antt is `_open_round`, `legal` and `act`, with the no-limit, pot-limit and fixed-limit
-- structures.
--
-- Streets.antt is `next_street`, the loop of `settle` that completes the board, and `peek_runout`.
--
-- Pots.antt is `_pot_layers`, the uncalled refund, and the division of one share with its odd
-- chips.
--
-- Award.antt, Showdown.antt and Settle.antt are the seven steps of `settle`: Settle.antt returns
-- the refund, runs the board out once or twice and composes the others; Showdown.antt scores the
-- runs, finds the winners of a pot and orders the showdown; Award.antt divides the pots among runs
-- and winners.
--
-- Forfeit.antt is `settle_forfeit`, for a hand that stops when a player leaves.
--
-- Cashout.antt is `cashout_split`, which pays a pot out by the hero's equity. Its payouts are
-- integers; the products with the equity and with the fee are parameters.
--
-- DealMap.antt is holdem/p2p/deal_map.py: which seat or board slot each position of the shuffled
-- deck goes to, and the translation of card indices between the mental-poker deck and the engine's
-- `FULL_DECK`.
--
-- Replica.antt and its children are `ReplicaTable` of holdem/p2p/replica_table.py, one peer's copy
-- of the engine for a hand: Replica/Actions.antt is `apply_action` with its buffer of early
-- actions, Replica/Showdown.antt the streets, the revealed holes, `finish` and what `state_digest`
-- hashes. A replica is a record of the engine, the phase and the buffer; Replica/Steps.antt is the
-- relation of its steps.
--
-- Dispatch.antt is `MessageWorker` of holdem/p2p/dispatch.py, a bounded queue with one consumer;
-- Dispatch/Steps.antt is the relation of its steps, in which the threads are interleaved: the test
-- and the put of `_enqueue`, and `get`, the test and the call of the handler in `_run`, are steps of
-- their own, and so is every round of the loops of `stop`.
--
-- Timing.antt is `WaitClock` and `ClockJumpGuard` of holdem/p2p/casual_timing.py, on times that are
-- natural numbers.
--
-- Examples and its children hold tests on concrete hands and the theorems at inputs that meet
-- their hypotheses.
--
-- The parts meet in the records they pass on: `start_hand` leaves the state that `act` changes,
-- `next_street` opens the next round, and `settle` reads the stakes that `act` and the posts have
-- put in. The invariant `Inv` of Betting/Turns.antt is what these operations hand to each other.
--
-- Bounds and fuel. Chips are natural numbers, as Python's integers are unbounded; a subtraction
-- that could pass zero is guarded where the source guards it. The loop that completes the board
-- has fuel 3, one round for each street that can be left. The walk for odd chips has a fuel of one
-- lap of the table for each odd chip, since every lap passes a winner. Searches round the table
-- take as many steps as there are seats. The loop that drains a replica's buffer has the length of
-- the buffer as fuel, since every round takes an action out of it.
--
-- Not modelled: the IndexError of `evaluate` on a card that no deck has, whose rank is above 14 or
-- whose suit is above 3; the equity simulation and the computer player `Brain` of holdem/engine.py,
-- which use floating point and random numbers; the label of the winning hand in an event, which is
-- display text; and the other files of holdem, which are the peer-to-peer protocol, its
-- cryptography, the network transports, storage and the user interfaces.
pub mod Base
pub mod Cards
pub mod Evaluate
pub mod Table
pub mod Betting
pub mod Positions
pub mod Hand
pub mod Streets
pub mod Pots
pub mod Forfeit
pub mod Cashout
pub mod Award
pub mod Showdown
pub mod Settle
pub mod DealMap
pub mod Replica
pub mod Dispatch
pub mod Timing
pub mod Examples
