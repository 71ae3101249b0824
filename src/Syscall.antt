-- ===== src/Syscall.antt =====
-- Results of the system calls that several programs make.
use the_linux_programming_in.Prelude.{ℕ}

-- What read() returns: what was read (bytes, or the events that they hold), 0, or -1 with
-- `errno`, which is EINTR or another error
pub data ReadResult {ℓ} (A : Type ℓ) : Type ℓ where
  got : A → ReadResult A
  eof : ReadResult A
  eintr : ReadResult A
  read_error : ReadResult A

-- What write() returns: a count, or -1 with `errno`
pub data WriteResult : Type 0 where
  wrote : ℕ → WriteResult
  write_eintr : WriteResult
  write_error : WriteResult
