-- ===== src/FileMessages.antt =====
-- svmsg/svmsg_file_server.c and svmsg/svmsg_file_client.c: a file sent in messages through a queue.
-- Queues, files and fork() are given by what the calls return.
pub mod Delivery
use the_linux_programming_in.Prelude.{
  ℕ, zero, suc, ◌+◌, ◌-◌, ◌≡◌, Bool, true, false, Option, none, some, List, [], ◌∷◌, ◌++◌, length,
  take, ltb, if◌then◌else◌,
}
use the_linux_programming_in.Syscall.{ReadResult, got, eof, eintr, read_error}
use the_linux_programming_in.CString.{strncpy}

-- `sizeof(req.pathname)`
abbrev pub path_max : ℕ
path_max = 4096

-- `struct responseMsg`, by its type
pub data Response : Type 0 where
  failure resp_data : List ℕ → Response
  resp_end : Response

-- `struct requestMsg`
pub record Request : Type 0 where
  pub client_id : ℕ
  pub pathname : List ℕ

abbrev pub could_not_open : List ℕ
could_not_open =
    b'C' ∷ b'o' ∷ b'u' ∷ b'l' ∷ b'd' ∷ b'n' ∷ 39 ∷ b't' ∷ b' ' ∷ b'o' ∷ b'p' ∷ b'e' ∷ b'n' ∷ []

-- A message that is sent, if msgsnd() succeeds
abbrev pub sent : Bool → Response → List Response → List Response
sent true r rs = r ∷ rs
sent false r rs = rs

-- The loop over the file, by what each read() gives and whether the msgsnd() behind it succeeds, then the
-- last message; no result of read() is a read() that never returns.
unfoldable pub send_file : List (ReadResult (List ℕ) × Bool) → Bool → List Response
send_file [] end_sent = []
send_file ((got [], ok) ∷ rs) end_sent = sent end_sent resp_end []
send_file ((got (c ∷ cs), true) ∷ rs) end_sent = resp_data (c ∷ cs) ∷ send_file rs end_sent
send_file ((got (c ∷ cs), false) ∷ rs) end_sent = sent end_sent resp_end []
send_file ((eof, ok) ∷ rs) end_sent = sent end_sent resp_end []
send_file ((eintr, ok) ∷ rs) end_sent = sent end_sent resp_end []
send_file ((read_error, ok) ∷ rs) end_sent = sent end_sent resp_end []

-- `none` is an open() that fails; the last argument is about the one message that is sent then, or about
-- the last one.
unfoldable pub serve_request : Option (List (ReadResult (List ℕ) × Bool)) → Bool → List Response
unfolding send_file
serve_request none ok = sent ok (failure could_not_open) []
serve_request (some reads) ok = send_file reads ok

-- What msgrcv() gives the server, and what fork() gives then
pub data Incoming : Type 0 where
  request : Request → Bool → Incoming
  interrupted msgrcv_failed : Incoming

-- The loop of the server: the requests that are handed to a child, and whether the loop was left
unfoldable pub serve : List Incoming → List Request × Bool
serve [] = ([], false)
serve (request r true ∷ is) = let rest = serve is in (r ∷ rest.0, rest.1)
serve (request r false ∷ is) = ([], true)
serve (interrupted ∷ is) = serve is
serve (msgrcv_failed ∷ is) = ([], true)

-- The request of a client; `none` for a path that is too long
unfoldable pub client_request : ℕ → List ℕ → Option Request
unfolding strncpy
client_request client_id path =
    if ltb (path_max - 1) (length path)
    then none
    else some (record { client_id = client_id; pathname = strncpy (path_max - 1) path })

-- What msgrcv() gives the client
pub data Received : Type 0 where
  message : Response → Received
  receive_error : Received

-- How the client ends: with its report, with the text of a failure, with an error; or it waits.
pub data Report : Type 0 where
  received : (tot_bytes num_msgs : ℕ) → Report
  refused : List ℕ → Report
  error : Report
  waiting : Report

-- The loop of the client, while the last message has the type RESP_MT_DATA
unfoldable pub receive_loop : ℕ → ℕ → List Received → Report
receive_loop tot n [] = waiting
receive_loop tot n (receive_error ∷ ms) = error
receive_loop tot n (message (resp_data d) ∷ ms) = receive_loop (tot + length d) (n + 1) ms
receive_loop tot n (message resp_end ∷ ms) = received tot (n + 1)
receive_loop tot n (message (failure t) ∷ ms) = received (tot + (length t + 1)) (n + 1)

unfoldable pub client : List Received → Report
unfolding receive_loop
client [] = waiting
client (receive_error ∷ ms) = error
client (message (failure text) ∷ ms) = refused text
client (message resp_end ∷ ms) = received 0 1
client (message (resp_data d) ∷ ms) = receive_loop (length d) 1 ms
