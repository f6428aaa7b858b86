-- ===== src/Cbi/Run.antt =====
-- How the `save` methods of cbi.js end: they return, or an exception ends what calls them.
use xluci.Uci.Store.{State}

-- The store that is left, with the writes up to the exception where one was thrown.
pub data Run : Type 0 where
  returns : State → Run
  throws : State → Run

abbrev pub state_of : Run → State
state_of (returns st) = st
state_of (throws st) = st

-- What follows a call, which an exception skips.
abbrev pub then_run : Run → (State → Run) → Run
then_run (returns st) f = f st
then_run (throws st) f = throws st
