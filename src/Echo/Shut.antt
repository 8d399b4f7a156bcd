-- ===== src/Echo/Shut.antt =====
-- What the echo client does after the end of its standard input.
use ex_netlink.Base.{
  ◌∙◌, ℕ, ◌≡◌, refl, Option, none, some, List, [], ◌∷◌, Bool, true, false, ◌&&◌, ltb, if◌then◌else◌,
  length, arith,
}
use ex_netlink.Echo.Client.{
  c_string, has_zero, Act, shuts_down, closes, reports, writes, prints, Client, Got, received,
  peer_closed, read_failed, Outcome, continues, reconnects, exits_well, exits_badly, faults,
  new_client, print_received, read_socket, serve_socket, starts_with_q, read_stdin, fd_set, select,
  Input, serve, pass, loop,
}

abbrev pub has_shut : List Act → Bool
has_shut [] = false
has_shut (shuts_down ∷ log) = true
has_shut (closes ∷ log) = has_shut log
has_shut (reports ∷ log) = has_shut log
has_shut (writes l ∷ log) = has_shut log
has_shut (prints l ∷ log) = has_shut log

-- Nothing is written, and the socket is not shut down again, behind a shutdown.
abbrev pub Quiet : List Act → Type 0
Quiet [] = Unit
Quiet (shuts_down ∷ log) = (has_shut log ≡ false) × Quiet log
Quiet (closes ∷ log) = Quiet log
Quiet (reports ∷ log) = Quiet log
Quiet (writes l ∷ log) = (has_shut log ≡ false) × Quiet log
Quiet (prints l ∷ log) = Quiet log

abbrev pub state : Outcome → Client
state (continues c) = c
state (reconnects c) = c
state (exits_well c) = c
state (exits_badly c) = c
state (faults c) = c

-- Once `stand_id_flag` is set, standard input is out of `set`; before, nothing is shut down.
record Inv (flag stdin_set : Bool) (log : List Act) : Type 0 where
  quiet : Quiet log
  told : has_shut log ≡ flag
  out_of_set : flag ≡ true → stdin_set ≡ false

abbrev InvAt : Client → Type 0
InvAt c = Inv c.stand_id_flag c.stdin_set c.log

-- An act other than a write or a shutdown.
abbrev IsCalm : Act → Type 0
IsCalm shuts_down = false ≡ true
IsCalm closes = Unit
IsCalm reports = Unit
IsCalm (writes l) = false ≡ true
IsCalm (prints l) = Unit

IsCalm-Inv :
    {flag stdin_set : Bool} {log : List Act} (a : Act)
    → IsCalm a
    → Inv flag stdin_set log
    → Inv flag stdin_set (a ∷ log)
IsCalm-Inv shuts_down h v = absurd (ground (arith, h))
IsCalm-Inv closes h v = record { quiet = v.quiet; told = v.told; out_of_set = v.out_of_set }
IsCalm-Inv reports h v = record { quiet = v.quiet; told = v.told; out_of_set = v.out_of_set }
IsCalm-Inv (writes l) h v = absurd (ground (arith, h))
IsCalm-Inv (prints l) h v = record { quiet = v.quiet; told = v.told; out_of_set = v.out_of_set }

if-Inv :
    (b : Bool) (o p : Outcome)
    → InvAt (state o)
    → InvAt (state p)
    → InvAt (state (if b then o else p))
if-Inv true o p v w = v
if-Inv false o p v w = w

read_socket-Inv : (c : Client) (got : Got) → InvAt c → InvAt (state (read_socket c got))
unfolding read_socket print_received
read_socket-Inv c peer_closed v = IsCalm-Inv reports tt (IsCalm-Inv closes tt v)
read_socket-Inv c read_failed v = IsCalm-Inv reports tt v
read_socket-Inv c (received buf) v =
    let printed = IsCalm-Inv (prints (c_string buf)) tt v in
    if-Inv (ltb (length buf) 1024) _ _ printed (if-Inv (has_zero buf) _ _ printed v)

serve_socket-Inv : (c : Client) (got : Got) → InvAt c → InvAt (state (serve_socket c got))
unfolding serve_socket
serve_socket-Inv c got v = if-Inv c.sock_set _ _ (read_socket-Inv c got v) v

written-Inv :
    {flag stdin_set : Bool} {log : List Act} (l : List ℕ)
    → flag ≡ false
    → Inv flag stdin_set log
    → Inv flag stdin_set (writes l ∷ log)
written-Inv l unshut v = record {
  quiet = (v.told ∙ unshut, v.quiet);
  told = v.told;
  out_of_set = v.out_of_set;
}

read_stdin-Inv :
    (c : Client) (line : Option (List ℕ)) (sent : Bool) (got : Got)
    → c.stand_id_flag ≡ false
    → InvAt c
    → InvAt (state (read_stdin c line sent got))
unfolding read_stdin
read_stdin-Inv c none sent got unshut v = record {
  quiet = (v.told ∙ unshut, v.quiet);
  told = refl;
  out_of_set = λ _. refl;
}
read_stdin-Inv c (some line) sent got unshut v =
    let written = written-Inv (c_string line) unshut v in
    if-Inv (starts_with_q line) _ _ (IsCalm-Inv reports tt (IsCalm-Inv closes tt v)) (
      if-Inv sent _ _ (serve_socket-Inv _ got written)
        (serve_socket-Inv _ got (IsCalm-Inv reports tt written)))

if-Inv_known :
    (b : Bool) (o p : Outcome)
    → (b ≡ true → InvAt (state o))
    → InvAt (state p)
    → InvAt (state (if b then o else p))
if-Inv_known true o p v w = v refl
if-Inv_known false o p v w = w

still_unshut :
    (flag stdin_set : Bool) → (flag ≡ true → stdin_set ≡ false) → stdin_set ≡ true → flag ≡ false
still_unshut true stdin_set h e = absurd (ground (arith, h refl, e))
still_unshut false stdin_set h e = refl

serve-Inv : (c : Client) (i : Input) → InvAt c → InvAt (state (serve c i))
unfolding serve
serve-Inv c i v =
    if-Inv_known c.stdin_set _ _
      (λ h.
        read_stdin-Inv c i.line i.sent i.got
          (still_unshut c.stand_id_flag c.stdin_set v.out_of_set h) v)
      (serve_socket-Inv c i.got v)

kept_out :
    (flag stdin_set : Bool)
    → (flag ≡ true → stdin_set ≡ false)
    → flag ≡ true
    → (if flag then stdin_set else true) ≡ false
kept_out true stdin_set h e = h refl
kept_out false stdin_set h e = absurd (ground (arith, e))

and_left : (b c : Bool) → b ≡ false → (b && c) ≡ false
and_left true c h = absurd (ground (arith, h))
and_left false c h = refl

select-Inv : (c : Client) (ready : Option (Bool × Bool)) → InvAt c → InvAt (select (fd_set c) ready)
unfolding select fd_set
select-Inv c none v = record {
  quiet = v.quiet;
  told = v.told;
  out_of_set = kept_out c.stand_id_flag c.stdin_set v.out_of_set;
}
select-Inv c (some (stdin_ready, sock_ready)) v = record {
  quiet = v.quiet;
  told = v.told;
  out_of_set = λ h. and_left _ stdin_ready (kept_out c.stand_id_flag c.stdin_set v.out_of_set h);
}

loop-Inv : (o : Outcome) (is : List Input) → InvAt (state o) → InvAt (state (loop o is))
unfolding loop pass
loop-Inv o [] v = v
loop-Inv (continues c) (i ∷ is) v =
    loop-Inv (pass c i) is (serve-Inv (select (fd_set c) i.ready) i (select-Inv c i.ready v))
loop-Inv (reconnects c) (i ∷ is) v = v
loop-Inv (exits_well c) (i ∷ is) v = v
loop-Inv (exits_badly c) (i ∷ is) v = v
loop-Inv (faults c) (i ∷ is) v = v

-- Whatever select(2), standard input and the socket give, the client of a connection shuts its
-- sending side down at most once, and writes nothing after it.
pub loop-Quiet :
    (garbage : Bool) (is : List Input)
    → Quiet (state (loop (continues (new_client garbage)) is)).log
unfolding new_client
loop-Quiet garbage is =
    (loop-Inv (continues (new_client garbage)) is
      (record { quiet = tt; told = refl; out_of_set = λ h. absurd (ground (arith, h)) })).quiet
