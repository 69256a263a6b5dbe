-- ===== src/Shell/Pipeline/Forking.antt =====
-- 2/shell.c: the loop of `execute_pipeline` that starts the children.
use sysproghw.Base.{
  ℕ, zero, suc, ◌+◌, ◌<◌, ◌≡◌, refl, ◌∙◌, ap, false, List, [], ◌∷◌, ◌++◌, Option, none, some, arith,
  if◌then◌else◌, length, bind,
}
use mathlib.Core.List.{Perm, perm_append_comm}
use mathlib.Core.List.Perm
use mathlib.Core.Path.{ap₂}
use sysproghw.Shell.Token.{Token, token, spec_first}
use sysproghw.Shell.Pipeline.{
  pipe_last, pipe_default, check_pipe, behind, Split, split_pipeline, Ends, no_ends, Child,
  child_of, prepare_fd, Event, piped, forked, closed, closings, round, is_pipe_empty, is_pipe_last,
  Pipes, make_pipe, fork_loop,
}

abbrev pub bar : Token
bar = token (b'|' ∷ []) spec_first

-- The commands of a pipeline, joined by `|`.
abbrev pub pipe_tokens : List Token → List (List Token) → List Token
pipe_tokens c [] = c
pipe_tokens c (d ∷ ds) = c ++ (bar ∷ pipe_tokens d ds)

abbrev pub HasNoPipe : List Token → Type 0
HasNoPipe [] = Unit
HasNoPipe (t ∷ r) = (check_pipe t ≡ false) × HasNoPipe r

-- At least one token, and no `|` behind the first.
abbrev pub IsCommand : List Token → Type 0
IsCommand [] = ⊥
IsCommand (t ∷ r) = HasNoPipe r

abbrev pub AreCommands : List (List Token) → Type 0
AreCommands [] = Unit
AreCommands (c ∷ cs) = IsCommand c × AreCommands cs

split_pipeline_last : (c : List Token) → IsCommand c → split_pipeline c ≡ (pipe_last, c, [])
unfolding split_pipeline
split_pipeline_last [] h = absurd h
split_pipeline_last (t ∷ []) h = refl
split_pipeline_last (t ∷ u ∷ r) h = rw h.0 (ap (behind t) (split_pipeline_last (u ∷ r) h.1))

split_pipeline-bar :
    (c rest : List Token)
    → IsCommand c
    → split_pipeline (c ++ (bar ∷ rest)) ≡ (pipe_default, c, rest)
unfolding split_pipeline
split_pipeline-bar [] rest h = absurd h
split_pipeline-bar (t ∷ []) rest h = refl
split_pipeline-bar (t ∷ u ∷ r) rest h = rw h.0 (ap (behind t) (split_pipeline-bar (u ∷ r) rest h.1))

-- The ends of the pipe in front of a command.
abbrev pub Before : Type 0
Before = Option (ℕ × ℕ)

abbrev ends_of : Before → Ends
ends_of none = no_ends
ends_of (some (r, w)) = record { fd_0 = some r; fd_1 = some w; fd_2 = none; fd_3 = none }

abbrev open_ends : Before → List ℕ
open_ends none = []
open_ends (some (r, w)) = r ∷ w ∷ []

abbrev pub read_end : Before → Option ℕ
read_end none = none
read_end (some (r, _)) = some r

-- What each child is to run, and where its input comes from and its output goes.
pub record Wire : Type 0 where
  pub command : List Token
  pub input : Option ℕ
  pub output : Option ℕ

-- The n-th pipe stands behind the first command.
abbrev pub wires : Pipes → ℕ → Before → List Token → List (List Token) → List Wire
wires pipes n before c [] = record { command = c; input = read_end before; output = none } ∷ []
wires pipes n before c (d ∷ ds) =
    record { command = c; input = read_end before; output = some (pipes n).1 }
    ∷ wires pipes (n + 1) (some (pipes n)) d ds

abbrev pub wires_of : List Event → List Wire
wires_of [] = []
wires_of (forked c ∷ es) =
    record { command = c.command; input = c.stdin; output = c.stdout } ∷ wires_of es
wires_of (_ ∷ es) = wires_of es

-- From the state where the shell has `open` as its pipe ends, it closes each end that is open or made
-- later once, closes nothing else, and each child closes every end that it inherits, once.
abbrev pub IsTidy : List ℕ → List Event → Type 0
IsTidy open_now [] = (open_now ≡ [])
IsTidy open_now (piped r w ∷ es) = IsTidy (open_now ++ r ∷ w ∷ []) es
IsTidy open_now (forked c ∷ es) = Perm c.closed open_now × IsTidy open_now es
IsTidy open_now (closed d ∷ es) = (rest : List ℕ) × (open_now ≡ d ∷ rest) × IsTidy rest es

IsTidy-closings :
    (ds rest : List ℕ) (es : List Event) → IsTidy rest es → IsTidy (ds ++ rest) (closings ds es)
IsTidy-closings [] rest es h = h
IsTidy-closings (d ∷ ds) rest es h = (ds ++ rest, refl, IsTidy-closings ds rest es h)

wires_of-closings : (ds : List ℕ) (es : List Event) → wires_of (closings ds es) ≡ wires_of es
wires_of-closings [] es = refl
wires_of-closings (d ∷ ds) es = wires_of-closings ds es

pub record IsPlumbed (pipes : Pipes) (n : ℕ) (before : Before) (c : List Token)
    (cs : List (List Token)) (o : Option (List Event × ℕ)) : Type 0 where
  pub events : List Event
  pub result : o ≡ some (events, suc (length cs))
  pub wiring : wires_of events ≡ wires pipes n before c cs
  pub tidy : IsTidy (open_ends before) events

last_child :
    (before : Before) (c : List Token)
    → Perm (child_of (ends_of before) c).closed (open_ends before)
unfolding child_of
last_child none c = Perm.refl []
last_child (some (r, w)) c = Perm.refl (r ∷ w ∷ [])

abbrev with_pipe : Before → ℕ × ℕ → Ends
with_pipe before (r, w) = record (ends_of before) { fd_2 = some r; fd_3 = some w }

middle_child :
    (before : Before) (p : ℕ × ℕ) (c : List Token)
    → Perm (child_of (with_pipe before p) c).closed (open_ends before ++ p.0 ∷ p.1 ∷ [])
unfolding child_of
middle_child none (r, w) c = Perm.swap r w []
middle_child (some (r', w')) (r, w) c = Perm.cons r' (perm_append_comm (w ∷ []) (w' ∷ r ∷ []))

-- Between the forks the shell closes the ends of the pipe before, and keeps those of the new one.
last_closing :
    (before : Before) → IsTidy (open_ends before) (closings (prepare_fd (ends_of before)).0 [])
unfolding prepare_fd
last_closing none = refl
last_closing (some (r, w)) = (w ∷ [], refl, ([], refl, refl))

middle_closing :
    (before : Before) (p : ℕ × ℕ) (es : List Event)
    → IsTidy (open_ends (some p)) es
    → IsTidy (open_ends before ++ p.0 ∷ p.1 ∷ []) (closings (prepare_fd (with_pipe before p)).0 es)
unfolding prepare_fd
middle_closing none p es h = h
middle_closing (some (r, w)) p es h = (w ∷ p.0 ∷ p.1 ∷ [], refl, (p.0 ∷ p.1 ∷ [], refl, h))

fork_loop_nil :
    (pipes : Pipes) (k n : ℕ) (fd : Ends) → fork_loop pipes (suc k) n [] fd ≡ some ([], 0)
unfolding fork_loop split_pipeline
fork_loop_nil pipes k n fd = refl

-- One round on a pipeline whose first command is known.
fork_loop-suc :
    (pipes : Pipes) (k n : ℕ) (p : List Token) (s : Split) (fd : Ends)
    → split_pipeline p ≡ s
    → is_pipe_empty s.0 ≡ false
    → fork_loop pipes (suc k) n p fd
      ≡ bind
          (fork_loop pipes k
            (if is_pipe_last s.0 then n else n + 1)
            s.2
            (prepare_fd (make_pipe s.0 (pipes n) fd).1).1)
          (λ r. some (
            round
              (make_pipe s.0 (pipes n) fd).0
              (child_of (make_pipe s.0 (pipes n) fd).1 s.1)
              (prepare_fd (make_pipe s.0 (pipes n) fd).1).0
              r))
unfolding fork_loop
fork_loop-suc pipes k n p s fd e h = rw (e, h)

abbrev wire : Child → Wire
wire c = record { command = c.command; input = c.stdin; output = c.stdout }

wire_last :
    (before : Before) (c : List Token)
    → wire (child_of (ends_of before) c) ∷ wires_of (closings (prepare_fd (ends_of before)).0 [])
      ≡ record { command = c; input = read_end before; output = none } ∷ []
unfolding child_of prepare_fd
wire_last none c = refl
wire_last (some (r, w)) c = refl

wire_middle :
    (before : Before) (p : ℕ × ℕ) (c : List Token)
    → wire (child_of (with_pipe before p) c)
      ≡ record { command = c; input = read_end before; output = some p.1 }
unfolding child_of
wire_middle none p c = refl
wire_middle (some (r, w)) p c = refl

pub fork_loop-IsPlumbed :
    (pipes : Pipes) (k n : ℕ) (before : Before) (c : List Token) (cs : List (List Token))
    → IsCommand c
    → AreCommands cs
    → length cs + 1 < k
    → IsPlumbed pipes n before c cs (fork_loop pipes k n (pipe_tokens c cs) (ends_of before))
unfolding make_pipe prepare_fd
fork_loop-IsPlumbed pipes zero n before c cs h hs fuel = elim fuel [ ]
fork_loop-IsPlumbed pipes (suc zero) n before c cs h hs fuel = absurd (omega arith)
fork_loop-IsPlumbed pipes (suc (suc k)) n before c [] h hs fuel = record {
  events = forked (child_of (ends_of before) c) ∷ closings (prepare_fd (ends_of before)).0 [];
  result =
      fork_loop-suc pipes (suc k) n _ (pipe_last, c, []) (ends_of before) (split_pipeline_last c h)
        refl
      ∙ rw fork_loop_nil;
  wiring = wire_last before c;
  tidy = (last_child before c, last_closing before);
}
fork_loop-IsPlumbed pipes (suc (suc k)) n before c (d ∷ ds) h hs fuel =
    let later =
      fork_loop-IsPlumbed pipes (suc k) (n + 1) (some (pipes n)) d ds hs.0 hs.1 (omega arith) in
    let fd = with_pipe before (pipes n) in
    let count : suc (length ds) + 1 ≡ suc (suc (length ds)) = omega arith in
    record {
      events =
          piped (pipes n).0 (pipes n).1
          ∷ forked (child_of fd c)
          ∷ closings (prepare_fd fd).0 later.events;
      result =
          fork_loop-suc pipes (suc k) n _ (pipe_default, c, pipe_tokens d ds) (ends_of before)
            (split_pipeline-bar c (pipe_tokens d ds) h) refl
          ∙ rw later.result (rw count);
      wiring =
          ap₂ ◌∷◌ (wire_middle before (pipes n) c)
            (wires_of-closings (prepare_fd fd).0 later.events ∙ later.wiring);
      tidy = (
        middle_child before (pipes n) c,
        middle_closing before (pipes n) later.events later.tidy,
      );
    }
