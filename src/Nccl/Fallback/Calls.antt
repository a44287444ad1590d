-- ===== src/Nccl/Fallback/Calls.antt =====
-- `rewrite_table_fallback_to_direct_call` ends, and replaces calls through the table only.
use fabricperf.Prelude.{
  ℕ, zero, suc, Bool, true, false, ◌||◌, ◌&&◌, Option, none, some, List, [], ◌∷◌, ◌++◌, ◌+◌, length,
  drop, any, ◌≡◌, refl, sym, ap, subst, ◌∙◌, inl, inr, Bool-cases, Option-cases, map-some,
  length-append, drop-append, ◌≤◌, arith, and_parts,
}
use mathlib.Core.List.{append_assoc}
use fabricperf.Prelude.Keys.{nat_eq, list_eq, ◌==◌}
use fabricperf.Prelude.Text.{Text, codes, strip, starts_with, contains_text}
use fabricperf.Prelude.Lines.{splitlines, unlines}
use fabricperf.Nccl.Fallback.{
  Load, linked, operands_of, table_load, call_end, rstrip_commas, find_indirect_call_end,
  replacement, call_behind, table_call, rewrite_loop, rewrite_table_fallback_to_direct_call,
  nccl_table_cvt_re, nccl_table_mul_re, nccl_table_mov_re, nccl_table_add_re, nccl_table_ld_re,
}

abbrev pub is_call : Text → Bool
is_call line = starts_with (strip line) (codes "call")

abbrev pub is_target : Text → Text → Bool
is_target call_reg line = rstrip_commas (strip line) == call_reg

-- The first lines of `lines`, up to one with a closing brace; among them a call and its target.
pub record IsCallBlock (call_reg : Text) (saw_call saw_target : Bool) (lines : List Text) (k : ℕ)
    : Type 0 where
  pub body : List Text
  pub last : Text
  pub behind : List Text
  pub whole : lines ≡ body ++ (last ∷ behind)
  pub size : length body ≡ k
  pub closes : starts_with (strip last) (codes "}") ≡ true
  pub calls : (saw_call || any is_call (body ++ (last ∷ []))) ≡ true
  pub targets : (saw_target || any (is_target call_reg) (body ++ (last ∷ []))) ≡ true

-- The flags after a line, from those before it, where a target is only seen after a call.
target_called :
    (saw_call saw_target call target : Bool)
    → (saw_target ≡ true → saw_call ≡ true)
    → (saw_target || ((saw_call || call) && target)) ≡ true
    → (saw_call || call) ≡ true
target_called true saw_target call target s h = refl
target_called false true call target s h = absurd (cc (s refl))
target_called false false call target s h = (and_parts call target h).0

or_false : (a b : Bool) → (a || b) ≡ true → (a || (b || false)) ≡ true
or_false true b h = refl
or_false false true h = refl
or_false false false h = h

target_seen :
    (saw_target call target : Bool)
    → (saw_target || (call && target)) ≡ true
    → (saw_target || target) ≡ true
target_seen true call target h = refl
target_seen false call target h = (and_parts call target h).1

or_assoc : (a b c : Bool) → ((a || b) || c) ≡ true → (a || (b || c)) ≡ true
or_assoc true b c h = refl
or_assoc false b c h = h

target_later :
    (saw_target call target later : Bool)
    → ((saw_target || (call && target)) || later) ≡ true
    → (saw_target || (target || later)) ≡ true
target_later true call target later h = refl
target_later false false target later h = ground (arith, h)
target_later false true target later h = h

call_end-IsCallBlock :
    (n : ℕ) (saw_call saw_target : Bool) (call_reg : Text) (lines : List Text) (k : ℕ)
    → (saw_target ≡ true → saw_call ≡ true)
    → call_end n saw_call saw_target call_reg lines ≡ some k
    → IsCallBlock call_reg saw_call saw_target lines k
unfolding call_end
call_end-IsCallBlock zero saw_call saw_target call_reg lines k s h = absurd (cc)
call_end-IsCallBlock (suc n) saw_call saw_target call_reg [] k s h = absurd (cc)
call_end-IsCallBlock (suc n) saw_call saw_target call_reg (line ∷ lines) k s h =
    let call = saw_call || is_call line in
    let target = saw_target || (call && is_target call_reg line) in
    elim (Bool-cases (target && starts_with (strip line) (codes "}"))) [
      | inl here ↦
          let parts = and_parts target (starts_with (strip line) (codes "}")) here in
          record {
            body = [];
            last = line;
            behind = lines;
            whole = refl;
            size = cc (rw (call_end, here) at h);
            closes = parts.1;
            calls = or_false saw_call (is_call line) (
                target_called saw_call saw_target (is_call line) (is_target call_reg line) s
                  parts.0);
            targets =
                or_false saw_target (is_target call_reg line)
                  (target_seen saw_target call (is_target call_reg line) parts.0);
          }
      | inr further ↦
          let (j, found, next) =
            map-some suc (call_end n call target call_reg lines) (rw (call_end, further) at h) in
          let rest =
            call_end-IsCallBlock n call target call_reg lines j
              (target_called saw_call saw_target (is_call line) (is_target call_reg line) s)
              found in
          record {
            body = line ∷ rest.body;
            last = rest.last;
            behind = rest.behind;
            whole = ap (◌∷◌ line) rest.whole;
            size = ap suc rest.size ∙ next;
            closes = rest.closes;
            calls = or_assoc saw_call (is_call line) _ rest.calls;
            targets = target_later saw_target call (is_target call_reg line) _ rest.targets;
          }
    ]

-- A call through the table: five linked instructions that load the called function from the index

-- in `src`, and lines up to a closing brace with a call of the register that they load.
pub record IsTableCall (src : Text) (window : List Text) : Type 0 where
  pub cvt : Text
  pub mul : Text
  pub mov : Text
  pub add : Text
  pub load : Text
  pub reg : Text
  pub body : List Text
  pub last : Text
  pub whole : window ≡ cvt ∷ mul ∷ mov ∷ add ∷ load ∷ (body ++ (last ∷ []))
  pub loads :
      linked
        (operands_of nccl_table_cvt_re cvt)
        (operands_of nccl_table_mul_re mul)
        (operands_of nccl_table_mov_re mov)
        (operands_of nccl_table_add_re add)
        (operands_of nccl_table_ld_re load)
      ≡ some (record { src = src; reg = reg })
  pub closes : starts_with (strip last) (codes "}") ≡ true
  pub calls : any is_call (body ++ (last ∷ [])) ≡ true
  pub targets : any (is_target reg) (body ++ (last ∷ [])) ≡ true

IsTableCall-length : (src : Text) (window : List Text) → IsTableCall src window → 1 ≤ length window
IsTableCall-length src window call = subst (λ ls. 1 ≤ length ls) (sym call.whole) (omega arith)

-- The first `n` lines are a call through the table.
record Finds (src : Text) (n : ℕ) (lines : List Text) : Type 0 where
  window : List Text
  behind : List Text
  whole : lines ≡ window ++ behind
  size : length window ≡ n
  is_call : IsTableCall src window

-- The rest of a call after its load.
block-Finds :
    (a b c d e : Text) (lines : List Text) (load : Load) (k : ℕ)
    → linked
        (operands_of nccl_table_cvt_re a)
        (operands_of nccl_table_mul_re b)
        (operands_of nccl_table_mov_re c)
        (operands_of nccl_table_add_re d)
        (operands_of nccl_table_ld_re e)
      ≡ some load
    → IsCallBlock load.reg false false lines k
    → Finds load.src (5 + k + 1) (a ∷ b ∷ c ∷ d ∷ e ∷ lines)
block-Finds a b c d e lines load k loads block = record {
  window = a ∷ b ∷ c ∷ d ∷ e ∷ (block.body ++ (block.last ∷ []));
  behind = block.behind;
  whole =
      ap (λ ls. a ∷ b ∷ c ∷ d ∷ e ∷ ls)
        (block.whole ∙ sym (append_assoc block.body (block.last ∷ []) block.behind));
  size = omega (arith, length-append block.body (block.last ∷ []), block.size);
  is_call = record {
    cvt = a;
    mul = b;
    mov = c;
    add = d;
    load = e;
    reg = load.reg;
    body = block.body;
    last = block.last;
    whole = refl;
    loads = loads;
    closes = block.closes;
    calls = block.calls;
    targets = block.targets;
  };
}

call_behind-Finds :
    (a b c d e : Text) (lines : List Text) (loaded : Option Load) (src : Text) (n : ℕ)
    → linked
        (operands_of nccl_table_cvt_re a)
        (operands_of nccl_table_mul_re b)
        (operands_of nccl_table_mov_re c)
        (operands_of nccl_table_add_re d)
        (operands_of nccl_table_ld_re e)
      ≡ loaded
    → call_behind (a ∷ b ∷ c ∷ d ∷ e ∷ lines) loaded ≡ some (src, n)
    → Finds src n (a ∷ b ∷ c ∷ d ∷ e ∷ lines)
unfolding find_indirect_call_end
call_behind-Finds a b c d e lines none src n loads h = absurd (cc)
call_behind-Finds a b c d e lines (some load) src n loads h =
    let (k, found, next) =
      map-some (λ k. (load.src, 5 + k + 1)) (call_end 32 false false load.reg lines) h in
    let block = call_end-IsCallBlock 32 false false load.reg lines k (λ s. s) found in
    subst (λ p. Finds p.0 p.1 (a ∷ b ∷ c ∷ d ∷ e ∷ lines)) next
      (block-Finds a b c d e lines load k loads block)

table_call-Finds :
    (lines : List Text) (src : Text) (n : ℕ) → table_call lines ≡ some (src, n) → Finds src n lines
unfolding table_call table_load
table_call-Finds (a ∷ b ∷ c ∷ d ∷ e ∷ lines) src n h =
    call_behind-Finds a b c d e lines _ src n refl h
table_call-Finds [] src n h = absurd (cc)
table_call-Finds (a ∷ []) src n h = absurd (cc)
table_call-Finds (a ∷ b ∷ []) src n h = absurd (cc)
table_call-Finds (a ∷ b ∷ c ∷ []) src n h = absurd (cc)
table_call-Finds (a ∷ b ∷ c ∷ d ∷ []) src n h = absurd (cc)

-- The lines `lines` become `out`, with replacements numbered from `k` up to `m`.
pub data Rewritten (function_id : ℕ) (function_name : Text)
    : ℕ → List Text → List Text → ℕ → Type 0 where
  done : {k : ℕ} → Rewritten function_id function_name k [] [] k
  copied :
      {k m : ℕ} {line : Text} {lines out : List Text}
      → Rewritten function_id function_name k lines out m
      → Rewritten function_id function_name k (line ∷ lines) (line ∷ out) m
  replaced :
      {k m : ℕ} {src : Text} {window lines out : List Text}
      → IsTableCall src window
      → Rewritten function_id function_name (suc k) lines out m
      → Rewritten function_id function_name k
          (window ++ lines)
          (replacement function_id function_name k src ++ out)
          m

-- The loop returns.
record Returns (fuel function_id : ℕ) (function_name : Text) (k : ℕ) (lines : List Text)
    : Type 0 where
  out : List Text
  count : ℕ
  returned : rewrite_loop fuel function_id function_name k lines ≡ some (out, count)
  related : Rewritten function_id function_name k lines out count

rewrite_loop-Returns :
    (fuel function_id : ℕ) (function_name : Text) (k : ℕ) (lines : List Text)
    → length lines ≤ fuel
    → Returns fuel function_id function_name k lines
unfolding rewrite_loop
rewrite_loop-Returns fuel function_id function_name k [] enough = record {
  out = [];
  count = k;
  returned = refl;
  related = done;
}
rewrite_loop-Returns zero function_id function_name k (line ∷ lines) enough = absurd (omega arith)
rewrite_loop-Returns (suc fuel) function_id function_name k (line ∷ lines) enough =
    elim (Option-cases (table_call (line ∷ lines))) [
      | inl none_found ↦
          let rest = rewrite_loop-Returns fuel function_id function_name k lines (omega arith) in
          record {
            out = line ∷ rest.out;
            count = rest.count;
            returned = rw (none_found, rest.returned) refl;
            related = copied rest.related;
          }
      | inr ((src, n), found) ↦
          let call = table_call-Finds (line ∷ lines) src n found in
          let after : drop n (line ∷ lines) ≡ call.behind =
            ap (drop n) call.whole
            ∙ subst (λ i. drop i (call.window ++ call.behind) ≡ call.behind) call.size
                (drop-append call.window call.behind) in
          let shorter : length call.behind ≤ fuel = omega (
            arith,
            enough,
            ap length call.whole,
            length-append call.window call.behind,
            IsTableCall-length src call.window call.is_call,
          ) in
          let rest =
            rewrite_loop-Returns fuel function_id function_name (suc k) call.behind shorter in
          record {
            out = replacement function_id function_name k src ++ rest.out;
            count = rest.count;
            returned = rw (found, after, rest.returned) refl;
            related =
                subst
                  (λ ls.
                    Rewritten function_id function_name k ls
                      (replacement function_id function_name k src ++ rest.out) rest.count)
                  (sym call.whole) (replaced call.is_call rest.related);
          }
    ]

-- What `rewrite_table_fallback_to_direct_call` does to a module.
pub data IsRewriting (function_id : ℕ) (function_name ptx : Text) : Text → ℕ → Type 0 where
  untouched : IsRewriting function_id function_name ptx ptx 0
  by_lines :
      {out : List Text} {k : ℕ}
      → Rewritten function_id function_name 0 (splitlines ptx) out k
      → IsRewriting function_id function_name ptx (unlines out) k

-- The rewriting ends for every module, id and name: as many rounds as there are lines are enough. Its
-- result is the module itself or is made from its lines by copying lines and replacing whole calls through
-- the table, numbered from 0, and the count is that of the replaced calls.
pub rewrite_table_fallback_to_direct_call_total :
    (ptx : Text) (function_id : ℕ) (function_name : Text)
    → (out : Text) × (k : ℕ) × (rewrite_table_fallback_to_direct_call ptx
          (some function_id)
          function_name
        ≡ some (out, k))
      × IsRewriting function_id function_name ptx out k
unfolding rewrite_table_fallback_to_direct_call
rewrite_table_fallback_to_direct_call_total ptx function_id function_name =
    elim (Bool-cases (contains_text (codes "ncclDevFuncTable") ptx)) [
      | inl there ↦
          let lines = splitlines ptx in
          let run =
            rewrite_loop-Returns (length lines) function_id function_name 0 lines (omega arith) in
          (unlines run.out, run.count, rw (there, run.returned) refl, by_lines run.related)
      | inr missing ↦ (ptx, 0, rw missing refl, untouched)
    ]
