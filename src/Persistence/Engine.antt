-- ===== src/Persistence/Engine.antt =====
-- The database engine under SQLAlchemy, which the program only calls. A query's WHERE clause is
-- part of the source and is modelled; how the engine runs it is not, and SQL leaves the order of
-- the rows open. So the engine is a parameter with what SQL documents as its laws.
use mathlib.Core.List.Perm
use eu_ai_act_compliance.Prelude.{
  Bool, true, List, [], ◌∷◌, ◌≡◌, filter, Mem, Perm, mem_of_mem-filter, test_of_mem-filter,
  mem-filter_of_mem, first, some, refl,
}
use eu_ai_act_compliance.Prelude.Sort.{IsStrictWeak, IsSorted, sort, sort-perm, sort-IsSorted}
use mathlib.Core.List.{mem-cons_self, not-mem-nil}

pub record Engine : Type 1 where
  -- `select(...).where(test)`: the rows that pass the test, each as often as the table holds it
  pub rows : (A : Type 0) → (A → Bool) → List A → List A
  pub rows-perm :
      (A : Type 0) (test : A → Bool) (table : List A) → Perm (rows A test table) (filter test table)
  -- `.order_by(...)`, with `lt` for the order that the clause asks for
  pub order_by : (A : Type 0) → (A → A → Bool) → List A → List A
  pub order_by-perm :
      (A : Type 0) (lt : A → A → Bool) (found : List A) → Perm (order_by A lt found) found
  pub order_by-IsSorted :
      (A : Type 0) (lt : A → A → Bool) (found : List A)
      → IsStrictWeak lt
      → IsSorted lt (order_by A lt found)

-- An engine that gives rows in the order of the table, and sorts stably.
abbrev pub in_table_order : Engine
in_table_order = record {
  rows = λ A test table. filter test table;
  rows-perm = λ A test table. Perm.rfl;
  order_by = λ A lt found. sort lt found;
  order_by-perm = λ A lt found. sort-perm lt found;
  order_by-IsSorted = λ A lt found order. sort-IsSorted order found;
}

module _ (engine : Engine) {A : Type 0} (test : A → Bool) where
  pub mem_of_mem-rows : {a : A} (table : List A) → Mem a (engine.rows A test table) → Mem a table
  mem_of_mem-rows table m =
      mem_of_mem-filter test table ((Perm.mem_iff (engine.rows-perm A test table)).0 m)

  pub test_of_mem-rows : {a : A} (table : List A) → Mem a (engine.rows A test table) → test a ≡ true
  test_of_mem-rows table m =
      test_of_mem-filter test table ((Perm.mem_iff (engine.rows-perm A test table)).0 m)

  pub mem-rows_of_mem :
      {a : A} (table : List A) → Mem a table → test a ≡ true → Mem a (engine.rows A test table)
  mem-rows_of_mem table m h =
      (Perm.mem_iff (engine.rows-perm A test table)).1 (mem-filter_of_mem test table m h)

pub mem_of_first {ℓ} : {A : Type ℓ} {a : A} (xs : List A) → first xs ≡ some a → Mem a xs
mem_of_first [] h = cc
mem_of_first {a = a} (x ∷ xs) h = let e : x ≡ a = cc in rw e mem-cons_self

pub first_of_mem {ℓ} : {A : Type ℓ} {a : A} (xs : List A) → Mem a xs → (b : A) × (first xs ≡ some b)
first_of_mem [] m = absurd (not-mem-nil m)
first_of_mem (x ∷ xs) m = (x, refl)
