-- ===== src/Queue/Lua/Sequence.antt =====
-- `nextSeqScript` of pkg/queue/lua.go, and the numbers that it hands out.
use async_queue_go.Prelude.{ℕ, ltb, if◌then◌else◌, String}
use async_queue_go.Redis.Program.{Program, pure, ◌>>=◌, ◌>>◌, on}
use async_queue_go.Redis.Server.{Server}

module _ (s : Server) where
  -- GET of the epoch, which starts at 0.
  unfoldable pub read_epoch : String → Program s.Db ℕ
  read_epoch epoch_key = do
    found ← s.get_counter epoch_key
    on found (s.set_counter epoch_key 0 >> pure 0) pure

  -- The sequence number and the epoch.
  unfoldable pub next_seq : String → String → ℕ → Program s.Db (ℕ × ℕ)
  next_seq seq_key epoch_key max = s.incr seq_key >>= λ seq. read_epoch epoch_key >>= λ epoch.
      if ltb max seq
      then (do s.set_counter seq_key 0; next ← s.incr epoch_key; pure (0, next))
      else pure (seq, epoch)
