-- ===== src/Transaction.antt =====
-- `Connection::unchecked_transaction` as src/*.rs uses it: what a handler wrote is kept only if it
-- reached `tx.commit()`; an early `return` and an error (the `?` operator) drop the transaction.
use conversation_blackboard.Sql.{Result, ok, err}
use conversation_blackboard.Board.{Database}

-- How the body of a transaction ends.
pub data TxEnd (R : Type 0) : Type 0 where
  commit : Database → R → TxEnd R
  rollback : R → TxEnd R

unfoldable pub in_tx : {E R : Type 0} → Database → Result E (TxEnd R) → Database × Result E R
in_tx db (ok (commit db' r)) = (db', ok r)
in_tx db (ok (rollback r)) = (db, ok r)
in_tx db (err e) = (db, err e)
