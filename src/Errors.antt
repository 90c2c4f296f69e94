-- ===== src/Errors.antt =====
-- chain/bsc2/errors.go: the errors after which a loop is entered again.
use btp2_bsc.Base.{Bool, true, false, Error, inconsistent_block, recoverable_err}

unfoldable pub recoverable : Error → Error
recoverable inconsistent_block = recoverable_err
recoverable e = e

-- `recoverable(err) == ErrRecoverable`
unfoldable pub restarts : Error → Bool
unfolding recoverable
restarts e = elim (recoverable e) [ recoverable_err ↦ true | _ ↦ false ]
