-- ===== src/Wal/Quiet.antt =====
-- The operations of internal/wal/wal_forge.go that its tickers start: sync and rotateLog log nothing,
-- and the bytes of the segments stay what they are.
use dice_db_distributed_syst.Prelude.{
  ℕ, suc, ◌≡◌, sym, ap, ◌∙◌, ◌⊎◌, inl, inr, arith, length, nat_eq, str_eq,
}
use dice_db_distributed_syst.Wal.{Files, WalForge, done, write_out, sync, open_next, rotate_log}
use dice_db_distributed_syst.Wal.Contents.{
  content, write_out-content, open_next-content, rotate_log-done,
}

-- A log goes from w to w' without an entry; its current segment may be a new one.
pub record IsQuiet (w w' : WalForge) : Type 0 where
  pub idx : (w'.cs_idx ≡ w.cs_idx) ⊎ (w'.cs_idx ≡ suc w.cs_idx)
  pub bytes : (i : ℕ) → content w' i ≡ content w i

pub rotate_log-IsQuiet :
    (files : Files) (w w' : WalForge) → rotate_log files w ≡ done w' → IsQuiet w w'
unfolding open_next write_out
rotate_log-IsQuiet files w w' h =
    let e = rotate_log-done files w w' h in
    record {
      idx = inr (sym (ap (λ u. u.cs_idx) e));
      bytes = λ i. ap (λ u. content u i) (sym e) ∙ open_next-content i w;
    }

pub sync-IsQuiet : (files : Files) (w w' : WalForge) → sync files w ≡ done w' → IsQuiet w w'
unfolding sync write_out
sync-IsQuiet files w w' h =
    let e : write_out (length w.pending) w ≡ w' = ground arith in
    record {
      idx = inl (sym (ap (λ u. u.cs_idx) e));
      bytes = λ i. ap (λ u. content u i) (sym e) ∙ write_out-content (length w.pending) i w;
    }
