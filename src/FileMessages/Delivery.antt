-- ===== src/FileMessages/Delivery.antt =====
-- What the client of svmsg/ reports of what its server sends.
use the_linux_programming_in.Prelude.{
  ℕ, ◌+◌, ◌-◌, ◌<◌, ◌≡◌, refl, sym, ap, ◌∙◌, Bool, true, false, Option, none, some, List, [], ◌∷◌,
  ◌++◌, map, length, arith, length-append,
}
use the_linux_programming_in.Syscall.{ReadResult, got, eof, eintr, read_error}
use the_linux_programming_in.CString.{strncpy, strncpy_fits}
use the_linux_programming_in.FileMessages.{
  path_max, Request, could_not_open, send_file, serve_request, message, Report, received, refused,
  receive_loop, client, client_request,
}

-- The blocks that reach the queue: those of the reads before the first that gives none, or whose message
-- cannot be sent
abbrev pub blocks : List (ReadResult (List ℕ) × Bool) → List (List ℕ)
blocks [] = []
blocks ((got (c ∷ cs), true) ∷ rs) = (c ∷ cs) ∷ blocks rs
blocks ((got (c ∷ cs), false) ∷ rs) = []
blocks ((got [], ok) ∷ rs) = []
blocks ((eof, ok) ∷ rs) = []
blocks ((eintr, ok) ∷ rs) = []
blocks ((read_error, ok) ∷ rs) = []

-- The reads come to an end of the file, or to a failure.
abbrev pub Ends : List (ReadResult (List ℕ) × Bool) → Type 0
Ends [] = ⊥
Ends ((got (c ∷ cs), true) ∷ rs) = Ends rs
Ends ((got (c ∷ cs), false) ∷ rs) = Unit
Ends ((got [], ok) ∷ rs) = Unit
Ends ((eof, ok) ∷ rs) = Unit
Ends ((eintr, ok) ∷ rs) = Unit
Ends ((read_error, ok) ∷ rs) = Unit

abbrev pub concat : List (List ℕ) → List ℕ
concat [] = []
concat (x ∷ xs) = x ++ concat xs

loop_receives :
    (rs : List (ReadResult (List ℕ) × Bool)) (tot n : ℕ)
    → Ends rs
    → receive_loop tot n (map message (send_file rs true))
      ≡ received (tot + length (concat (blocks rs))) (n + length (blocks rs) + 1)
unfolding receive_loop send_file
loop_receives [] tot n e = absurd e
loop_receives ((got (c ∷ cs), true) ∷ rs) tot n e =
    loop_receives rs (tot + length (c ∷ cs)) (n + 1) e
    ∙ ground (arith, length-append (c ∷ cs) (concat (blocks rs)))
loop_receives ((got (c ∷ cs), false) ∷ rs) tot n e = ground arith
loop_receives ((got [], ok) ∷ rs) tot n e = ground arith
loop_receives ((eof, ok) ∷ rs) tot n e = ground arith
loop_receives ((eintr, ok) ∷ rs) tot n e = ground arith
loop_receives ((read_error, ok) ∷ rs) tot n e = ground arith

-- The reads of a file with the bytes `content`, all of which are sent
abbrev pub IsFile : List ℕ → List (ReadResult (List ℕ) × Bool) → Type 0
IsFile content [] = ⊥
IsFile content ((got (c ∷ cs), true) ∷ rs) =
    (rest : List ℕ) × (content ≡ (c ∷ cs) ++ rest) × IsFile rest rs
IsFile content ((got (c ∷ cs), false) ∷ rs) = ⊥
IsFile content ((got [], ok) ∷ rs) = content ≡ []
IsFile content ((eof, ok) ∷ rs) = content ≡ []
IsFile content ((eintr, ok) ∷ rs) = ⊥
IsFile content ((read_error, ok) ∷ rs) = ⊥

IsFile-blocks :
    (content : List ℕ) (rs : List (ReadResult (List ℕ) × Bool))
    → IsFile content rs
    → Ends rs × (concat (blocks rs) ≡ content)
IsFile-blocks content [] h = absurd h
IsFile-blocks content ((got (c ∷ cs), true) ∷ rs) (rest, e, h) =
    let (ends, same) = IsFile-blocks rest rs h in (ends, ap (λ t. (c ∷ cs) ++ t) same ∙ sym e)
IsFile-blocks content ((got (c ∷ cs), false) ∷ rs) h = absurd h
IsFile-blocks content ((got [], ok) ∷ rs) h = (tt, sym h)
IsFile-blocks content ((eof, ok) ∷ rs) h = (tt, sym h)
IsFile-blocks content ((eintr, ok) ∷ rs) h = absurd h
IsFile-blocks content ((read_error, ok) ∷ rs) h = absurd h

-- What the client is to report of a file, or of none
abbrev pub Expected : Option (List (ReadResult (List ℕ) × Bool)) → Report
Expected none = refused could_not_open
Expected (some rs) = received (length (concat (blocks rs))) (length (blocks rs) + 1)

abbrev pub EndsIfOpen : Option (List (ReadResult (List ℕ) × Bool)) → Type 0
EndsIfOpen none = Unit
EndsIfOpen (some rs) = Ends rs

client-serve :
    (file : Option (List (ReadResult (List ℕ) × Bool)))
    → EndsIfOpen file
    → client (map message (serve_request file true)) ≡ Expected file
unfolding client serve_request send_file
client-serve none e = refl
client-serve (some []) e = absurd e
client-serve (some ((got (c ∷ cs), true) ∷ rs)) e =
    loop_receives rs (length (c ∷ cs)) 1 e
    ∙ ground (arith, length-append (c ∷ cs) (concat (blocks rs)))
client-serve (some ((got (c ∷ cs), false) ∷ rs)) e = refl
client-serve (some ((got [], ok) ∷ rs)) e = refl
client-serve (some ((eof, ok) ∷ rs)) e = refl
client-serve (some ((eintr, ok) ∷ rs)) e = refl
client-serve (some ((read_error, ok) ∷ rs)) e = refl

-- For a path that is not too long, whatever the file gives, if the messages that end the answer are sent:
-- the server is asked for that path, and the client reports the failure to open the file, or the bytes and
-- the number of the messages that the server could send, those without an error and those with one alike.
pub fetch_reports :
    (files : List ℕ → Option (List (ReadResult (List ℕ) × Bool))) (id : ℕ) (path : List ℕ)
    → length path < path_max
    → EndsIfOpen (files path)
    → (r : Request) × (client_request id path ≡ some r)
      × (client (map message (serve_request (files r.pathname) true)) ≡ Expected (files path))
unfolding client_request
fetch_reports files id path h e = (
  record { client_id = id; pathname = strncpy (path_max - 1) path },
  ground (arith, h),
  ap (λ t. client (map message (serve_request (files t) true)))
        (strncpy_fits (path_max - 1) path (omega (arith, h)))
      ∙ client-serve (files path) e,
)

-- For a path that is not too long of a file that is read and sent without an error: the client reports the
-- length of the file and a message more than there were blocks.
pub fetch_counts :
    (files : List ℕ → Option (List (ReadResult (List ℕ) × Bool))) (id : ℕ) (path content : List ℕ)
    (rs : List (ReadResult (List ℕ) × Bool))
    → length path < path_max
    → files path ≡ some rs
    → IsFile content rs
    → (r : Request) × (client_request id path ≡ some r)
      × (client (map message (serve_request (files r.pathname) true))
          ≡ received (length content) (length (blocks rs) + 1))
fetch_counts files id path content rs h e f =
    let (ends, same) = IsFile-blocks content rs f in
    let (r, asked, got_it) = fetch_reports files id path h (rw e ends) in
    (
      r,
      asked,
      got_it
          ∙ ap Expected e
          ∙ ap (λ t. received t (length (blocks rs) + 1)) (ap (λ (x : List ℕ). length x) same),
    )
