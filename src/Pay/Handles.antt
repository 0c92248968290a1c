-- ===== src/Pay/Handles.antt =====
-- A handle that services/api/src/pay.ts accepts is its own canonical form.
use trans_f.Prelude.{List}
