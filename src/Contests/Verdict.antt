-- ===== src/Contests/Verdict.antt =====
-- What a verdict on a contest is.
use virtual_office.Prelude.{
  ◌≤◌, ◌≡◌, refl, sym, subst, Bool, true, false, not, ◌||◌, List, [], ◌∷◌, ◌++◌, map, Option, none,
  some, Text, text_eq, str_eq, str_eq_iff, trim, length, is_empty, any, find?, find?-eq_some,
  append-eq-nil, Bool-cases, inl, inr, arith, if◌then◌else◌,
}
use virtual_office.Core.Result.{ValidationError, is_ok, error_if-nil, either-nil, Ensures}
use virtual_office.Task.Status.{done, status_beq_iff}
use virtual_office.Task.Model.{Task}
use virtual_office.Contests.{
  decided, ContestDecision, is_in, has_won, contest_standing, already_errors, winner_errors,
  reason_errors, winning, crown, record_contest_win,
}

-- The entries once the winner is stored.
abbrev pub stored : Task → List Task → List Task
stored winner entries = map (λ (e : Task). if str_eq e.id winner.id then winner else e) entries

pub record IsVerdict (entries : List Task) (winner_id : Text) (decision : ContestDecision)
    (won : Task) : Type 0 where
  pub winner : Task
  pub entered : find? (λ (e : Task). str_eq e.id winner_id) entries ≡ some winner
  pub finished : winner.status ≡ done
  pub undecided : any entries has_won ≡ false
  pub said : is_empty (trim decision.reason) ≡ false
  pub said_within : length (trim decision.reason) ≤ 20000
  pub kept : won ≡ winning decision winner
  pub standing : contest_standing (stored won entries) ≡ decided
  pub final :
      (other : Text) (d : ContestDecision)
      → is_ok (record_contest_win (stored won entries) other d) ≡ false

any-find?-none : (entries : List Task) → find? has_won entries ≡ none → any entries has_won ≡ false
any-find?-none [] h = refl
any-find?-none (e ∷ es) h = ground (arith, any-find?-none es)

any-find?-some :
    (entries : List Task)
    → any entries has_won ≡ true
    → (t : Task) × (find? has_won entries ≡ some t)
any-find?-some [] h = cc
any-find?-some (e ∷ es) h = elim (Bool-cases (has_won e)) [
  | inl q ↦ (e, rw q refl)
  | inr q ↦ rw q (any-find?-some es (rw q at h))
]

or_right : (a : Bool) {b : Bool} → b ≡ true → (a || b) ≡ true
or_right true h = refl
or_right false h = h

any-stored :
    (w : Task) (entries : List Task)
    → has_won w ≡ true
    → (t : Task) → find? (λ (e : Task). str_eq e.id w.id) entries ≡ some t
    → any (stored w entries) has_won ≡ true
any-stored w [] h t f = cc
any-stored w (e ∷ es) h t f = elim (Bool-cases (str_eq e.id w.id)) [
  | inl q ↦ rw (q, h) refl
  | inr q ↦ rw q (or_right (has_won e) (any-stored w es h t (skip (str_eq e.id w.id) q f)))
]
  where
    skip :
        (b : Bool)
        → b ≡ false
        → (if b then some e else find? (λ (x : Task). str_eq x.id w.id) es) ≡ some t
        → find? (λ (x : Task). str_eq x.id w.id) es ≡ some t
    skip true q f = cc
    skip false q f = f

-- Once an entry has won, nothing more is decided.
decided_final :
    (entries : List Task) (other : Text) (d : ContestDecision)
    → any entries has_won ≡ true
    → is_ok (record_contest_win entries other d) ≡ false
unfolding record_contest_win
decided_final entries other d h =
    let (t, e) = any-find?-some entries h in refused (find? has_won entries) t e
  where
    refused :
        (o : Option Task) (t : Task)
        → o ≡ some t
        → is_ok (
            crown
              (already_errors o
                ++ (winner_errors other (find? (λ (entry : Task). str_eq entry.id other) entries)
                    ++ reason_errors (trim d.reason)))
              d
              (find? (λ (entry : Task). str_eq entry.id other) entries))
          ≡ false
    refused none t e = cc
    refused (some u) t e = refl

already-nil : (o : Option Task) → already_errors o ≡ [] → o ≡ none
already-nil none h = refl
already-nil (some t) h = cc

winner-nil :
    (winner_id : Text) (winner : Task)
    → winner_errors winner_id (some winner) ≡ []
    → winner.status ≡ done
unfolding is_in
winner-nil winner_id winner h = (status_beq_iff winner.status done).0 (yes (error_if-nil _ _ _ h))
  where
    yes : {b : Bool} → not b ≡ false → b ≡ true
    yes k = ground arith

reason-nil :
    (reason : Text)
    → reason_errors reason ≡ []
    → (is_empty reason ≡ false) × (length reason ≤ 20000)
unfolding reason_errors
reason-nil reason h =
    let (said, within) = either-nil _ _ _ _ _ _ h in (said, ground (arith, within))

-- A verdict that is recorded is for an entry whose work is done, in a contest in which nothing had
-- won, for a reason that is said and within its bound. It changes the entry in that alone, and
-- with it the contest is decided: no second verdict on it is accepted.
pub record_contest_win-IsVerdict :
    (entries : List Task) (winner_id : Text) (decision : ContestDecision)
    → Ensures (IsVerdict entries winner_id decision) (record_contest_win entries winner_id decision)
unfolding record_contest_win has_won contest_standing
record_contest_win-IsVerdict entries winner_id decision =
    verdict (find? (λ (e : Task). str_eq e.id winner_id) entries) refl _ refl
  where
    settled :
        (w : Task)
        → find? (λ (e : Task). str_eq e.id w.id) entries ≡ some w
        → (contest_standing (stored (winning decision w) entries) ≡ decided)
          × (any (stored (winning decision w) entries) has_won ≡ true)
    settled w f =
        let w_won = any-stored (winning decision w) entries refl w f in (rw w_won refl, w_won)

    verdict :
        (o : Option Task)
        → find? (λ (e : Task). str_eq e.id winner_id) entries ≡ o
        → (errors : List ValidationError)
        → already_errors (find? has_won entries)
            ++ (winner_errors winner_id o ++ reason_errors (trim decision.reason))
          ≡ errors
        → Ensures (IsVerdict entries winner_id decision) (crown errors decision o)
    verdict none f (x ∷ xs) e = tt
    verdict none f [] e = tt
    verdict (some w) f (x ∷ xs) e = tt
    verdict (some w) f [] e =
        let (already, rest) = append-eq-nil (already_errors (find? has_won entries)) _ e in
        let (won, said) = append-eq-nil (winner_errors winner_id (some w)) _ rest in
        let id =
          (str_eq_iff w.id winner_id).0
            (find?-eq_some (λ (e : Task). str_eq e.id winner_id) entries f) in
        let (nonblank, within) = reason-nil (trim decision.reason) said in
        let all =
          settled w
            (subst (λ i. find? (λ (e : Task). str_eq e.id i) entries ≡ some w) (sym id) f) in
        record {
          winner = w;
          entered = f;
          finished = winner-nil winner_id w won;
          undecided = any-find?-none entries (already-nil _ already);
          said = nonblank;
          said_within = within;
          kept = refl;
          standing = all.0;
          final = λ other d. decided_final (stored (winning decision w) entries) other d all.1;
        }
