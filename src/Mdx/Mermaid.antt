-- ===== src/Mdx/Mermaid.antt =====
-- The diagrams of docs/src/mdx-components.tsx: `loadMermaid`, `renderMermaid` and the effect of
-- `Mermaid`. The module keeps the promise of the library and, by source, the promises of the
-- renders; a promise is told by a number. What the scheduler decides is a list of events.
use quickspin.Text.{text_eq, trim}
use quickspin.Text.Units.{Text, codes, is_digit}
use quickspin.Prelude.{
  put, ℕ, ◌+◌, Bool, true, false, not, ◌&&◌, ◌||◌, Option, none, some, List, [], ◌∷◌, ◌++◌, leb,
  ◌==◌, if◌then◌else◌, ◌>>=◌, keep,
}
pub mod Promises
pub mod Cache
pub mod Undrawn
pub mod Broken
pub mod Tied
pub mod Kept
pub mod Effects
pub mod Answered
pub mod Figure
mod Tests

-- `mermaidReady`: null, or the promise of the import and of the set-up that follows it.
pub data Import : Type 0 where
  not_started loading loaded : Import
  failed : (reason : Text) → Import

-- What `setResult` is given.
pub data Outcome : Type 0 where
  svg : Text → Outcome
  error : Text → Outcome

-- A render waits for the library, is being laid out, or is settled; a failed one is `forgotten` once
-- its entry was deleted.
pub data Status : Type 0 where
  waiting drawing : Status
  settled : Outcome → Status
  forgotten : (reason : Text) → Status

pub record Render : Type 0 where
  pub id : Text
  pub source : Text
  pub status : Status

-- A run of the effect: whose it is, the promise that it awaits, and the flag of its closure.
pub record Effect : Type 0 where
  pub owner : ℕ
  pub render : ℕ
  pub cancelled : Bool

-- A mounted component with its last run of the effect.
pub record Diagram : Type 0 where
  pub use_id : Text
  pub source : Text
  pub effect : ℕ
  pub result : Option Outcome

pub record Diagrams : Type 0 where
  pub ready : Import
  pub cache : Text → Option ℕ
  pub renders : ℕ → Option Render
  pub next_render : ℕ
  pub effects : ℕ → Option Effect
  pub next_effect : ℕ
  pub mounted : ℕ → Option Diagram

abbrev pub initial : Diagrams
initial = record {
  ready = not_started;
  cache = λ _. none;
  renders = λ _. none;
  next_render = 0;
  effects = λ _. none;
  next_effect = 0;
  mounted = λ _. none;
}

-- `mermaidReady ??= import("mermaid")…`
unfoldable pub load_mermaid : Import → Import
load_mermaid not_started = loading
load_mermaid ready = ready

abbrev pub store : (Text → Option ℕ) → Text → Option ℕ → Text → Option ℕ
store cache source entry t = if text_eq t source then entry else cache t

-- The entry of a source that has none.
unfoldable pub new_render : Text → Text → Diagrams → Diagrams
new_render id source s = record s {
  ready = load_mermaid s.ready;
  cache = store s.cache source (some s.next_render);
  renders =
      put s.renders s.next_render (some (record { id = id; source = source; status = waiting }));
  next_render = s.next_render + 1;
}

unfoldable pub render_mermaid : Text → Text → Diagrams → Diagrams × ℕ
render_mermaid id source s = elim (s.cache source) [
  | some k ↦ (s, k)
  | none ↦ (new_render id source s, s.next_render)
]

-- `[a-zA-Z0-9_-]`
unfoldable pub is_id_unit : ℕ → Bool
is_id_unit c =
    is_digit c || leb b'a' c && leb c b'z' || leb b'A' c && leb c b'Z' || c == b'_' || c == b'-'

unfoldable pub render_id : Text → Text
render_id use_id = codes "mermaid-" ++ keep is_id_unit use_id

-- The body of the effect of a component.
unfoldable pub run_effect : ℕ → Text → Text → Option Outcome → Diagrams → Diagrams
run_effect c use_id source result s =
    let (t, k) = render_mermaid (render_id use_id) source s in
    record t {
      effects =
          put t.effects t.next_effect (some (record { owner = c; render = k; cancelled = false }));
      next_effect = t.next_effect + 1;
      mounted = put t.mounted c (
          some
            (record { use_id = use_id; source = source; effect = t.next_effect; result = result }));
    }

-- The clean-up that a run of the effect left behind.
unfoldable pub cancel : ℕ → Diagrams → Diagrams
cancel j s = elim (s.effects j) [
  | none ↦ s
  | some e ↦ record s { effects = put s.effects j (some (record e { cancelled = true })) }
]

unfoldable pub mount : ℕ → Text → Text → Diagrams → Diagrams
mount c use_id code s = elim (s.mounted c) [
  | none ↦ run_effect c use_id (trim code) none s
  | some _ ↦ s
]

-- A render of the component with other properties: the effect runs again if the source changed. With
-- `strict` it runs again in any case, as in the doubled effect of React's strict mode.
unfoldable pub rerender : Bool → ℕ → Text → Diagrams → Diagrams
rerender strict c code s = elim (s.mounted c) [
  | none ↦ s
  | some d ↦
      if text_eq (trim code) d.source && not strict
      then s
      else run_effect c d.use_id (trim code) d.result (cancel d.effect s)
]

unfoldable pub unmount : ℕ → Diagrams → Diagrams
unmount c s = elim (s.mounted c) [
  | none ↦ s
  | some d ↦ let t = cancel d.effect s in record t { mounted = put t.mounted c none }
]

unfoldable pub import_settles : Option Text → Import → Import
import_settles none loading = loaded
import_settles (some reason) loading = failed reason
import_settles _ ready = ready

unfoldable pub set_status : (Status → Status) → ℕ → Diagrams → Diagrams
set_status f k s = elim (s.renders k) [
  | none ↦ s
  | some r ↦ record s { renders = put s.renders k (some (record r { status = f r.status })) }
]

-- The reaction to the library: `mermaid.render` is called, or the rejection is passed on.
unfoldable pub resumed : Import → Status → Status
resumed loaded waiting = drawing
resumed (failed reason) waiting = settled (error reason)
resumed _ status = status

unfoldable pub drawn : Outcome → Status → Status
drawn outcome drawing = settled outcome
drawn outcome status = status

abbrev pub forget_status : Status → Status
forget_status (settled (error reason)) = forgotten reason
forget_status status = status

abbrev pub has_failed : Status → Bool
has_failed (settled (error _)) = true
has_failed _ = false

-- `render.catch(() => mermaidRenders.delete(source))`
unfoldable pub forget : ℕ → Diagrams → Diagrams
unfolding set_status
forget k s = elim (s.renders k) [
  | none ↦ s
  | some r ↦
      if has_failed r.status
      then (let t = set_status forget_status k s in
          record t { cache = store t.cache r.source none })
      else s
]

-- The outcome that the callbacks of a settled promise get.
abbrev pub outcome_of : Status → Option Outcome
outcome_of waiting = none
outcome_of drawing = none
outcome_of (settled o) = some o
outcome_of (forgotten reason) = some (error reason)

abbrev pub set_result : ℕ → Outcome → Diagrams → Diagrams
set_result c o s = elim (s.mounted c) [
  | none ↦ s
  | some d ↦ record s { mounted = put s.mounted c (some (record d { result = some o })) }
]

-- `if (!cancelled) setResult(…)`, once the awaited promise is settled.
unfoldable pub deliver : ℕ → Diagrams → Diagrams
deliver j s = elim (s.effects j) [
  | none ↦ s
  | some e ↦ elim (s.renders e.render >>= λ r. outcome_of r.status) [
    | none ↦ s
    | some o ↦ if e.cancelled then s else set_result e.owner o s
  ]
]

pub data Event : Type 0 where
  mounts : (c : ℕ) → (use_id code : Text) → Event
  rerenders : (strict : Bool) → (c : ℕ) → (code : Text) → Event
  unmounts : (c : ℕ) → Event
  imported : (reason : Option Text) → Event
  resumes forgets delivers : (k : ℕ) → Event
  draws : (k : ℕ) → Outcome → Event

unfoldable pub step : Event → Diagrams → Diagrams
step (mounts c use_id code) s = mount c use_id code s
step (rerenders strict c code) s = rerender strict c code s
step (unmounts c) s = unmount c s
step (imported reason) s = record s { ready = import_settles reason s.ready }
step (resumes k) s = set_status (resumed s.ready) k s
step (draws k outcome) s = set_status (drawn outcome) k s
step (forgets k) s = forget k s
step (delivers j) s = deliver j s

unfoldable pub run : List Event → Diagrams → Diagrams
run [] s = s
run (e ∷ es) s = run es (step e s)
