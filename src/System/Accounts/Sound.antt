-- ===== src/System/Accounts/Sound.antt =====
-- That the users and the whitelist (src/admin/admin.service.ts, src/auth/auth.service.ts) fit together.
use intaektok_be.Prelude.{
  ℕ, suc, ◌≤◌, ◌≡◌, inl, inr, refl, sym, ap, ◌∙◌, subst, Bool, true, false, Option, none, some,
  List, ◌∷◌, Ident, ◌==◌, opt_eq, update_where, delete_where, In, arith, Bool-cases, ==_refl,
}
use intaektok_be.Prisma.{User, UserStatus, Whitelist, is_blocked}
use intaektok_be.World.{World}
use intaektok_be.Env.{Env}
use intaektok_be.Auth.Login.{find_whitelist}
use intaektok_be.System.Accounts.{
  touched, In-updated, In-deleted, find-misses, Keyed, later-Keyed, update-Keyed, delete-Keyed,
  cons-Keyed,
}

abbrev pub entry_id : Whitelist → Ident
entry_id x = x.id

abbrev pub entry_kakao : Whitelist → Option Ident
entry_kakao x = x.kakao_id

abbrev pub user_id : User → Ident
user_id u = u.id

abbrev pub user_kakao : User → Option Ident
user_kakao u = some u.kakao_id

-- A user of the entry's Kakao account.
abbrev pub IsOf : Whitelist → User → Type 0
IsOf x u = (x.kakao_id ≡ some u.kakao_id) × ((u.kakao_id == 0) ≡ false)

-- The user of a blocked entry is suspended.
abbrev pub Agree : List Whitelist → List User → Type 0
Agree ws us =
    (x : Whitelist) (u : User)
    → In x ws
    → In u us
    → IsOf x u
    → is_blocked x.status ≡ true
    → u.status ≡ UserStatus.suspended

pub record Sound (env : Env) (w : World) : Type 0 where
  pub entries : Keyed env.cuid entry_id entry_kakao w.issued w.whitelist
  pub users : Keyed env.cuid user_id user_kakao w.issued w.users
  pub agree : Agree w.whitelist w.users

-- What an update must leave alone.
abbrev pub KeepsEntry : (Whitelist → Whitelist) → Type 0
KeepsEntry f = (x : Whitelist) → ((f x).id ≡ x.id) × ((f x).kakao_id ≡ x.kakao_id)

abbrev pub KeepsUser : (User → User) → Type 0
KeepsUser g = (u : User) → ((g u).id ≡ u.id) × (some ((g u).kakao_id) ≡ some u.kakao_id)

module _ (env : Env) where
  -- Other tables do not matter.
  pub same-Sound :
      (w v : World)
      → v.users ≡ w.users
      → v.whitelist ≡ w.whitelist
      → w.issued ≤ v.issued
      → Sound env w
      → Sound env v
  same-Sound w v a l n s = record {
    entries =
        subst (λ (z : List Whitelist). Keyed env.cuid entry_id entry_kakao v.issued z) (sym l)
          (later-Keyed env.cuid entry_id entry_kakao w.issued v.issued w.whitelist n s.entries);
    users =
        subst (λ (z : List User). Keyed env.cuid user_id user_kakao v.issued z) (sym a)
          (later-Keyed env.cuid user_id user_kakao w.issued v.issued w.users n s.users);
    agree =
        subst (λ (z : List Whitelist). Agree z v.users) (sym l)
          (subst (λ (z : List User). Agree w.whitelist z) (sym a) s.agree);
  }

  -- An entry that is not blocked, of a Kakao account that has none.
  pub add-Sound :
      (x : Whitelist) (w : World)
      → ((a b : ℕ) → env.cuid a ≡ env.cuid b → a ≡ b)
      → x.id ≡ env.cuid w.issued
      → is_blocked x.status ≡ false
      → ((k : Ident) → x.kakao_id ≡ some k → find_whitelist k w ≡ none)
      → Sound env w
      → Sound env (record w { whitelist = x ∷ w.whitelist; issued = suc w.issued })
  add-Sound x w distinct i b free s = record {
    entries =
        cons-Keyed env.cuid entry_id entry_kakao x w.issued w.whitelist distinct i
          (λ y k j p q.
            taken y k
              (find-misses (λ (z : Whitelist). opt_eq z.kakao_id (some k)) y w.whitelist (free k p)
                j)
              q)
          s.entries;
    users =
        later-Keyed env.cuid user_id user_kakao w.issued (suc w.issued) w.users (omega arith)
          s.users;
    agree = agreed;
  }
    where
      taken :
          (y : Whitelist) (k : Ident) → opt_eq y.kakao_id (some k) ≡ false → y.kakao_id ≡ some k → ⊥
      taken y k e q = ground (arith, e, q, ==_refl k)

      agreed : Agree (x ∷ w.whitelist) w.users
      agreed y u (inl e) j o h =
          absurd (ground (arith, b, h, ap (λ (z : Whitelist). is_blocked z.status) e))
      agreed y u (inr i) j o h = s.agree y u i j o h

  pub delete-Sound :
      (p : Whitelist → Bool) (w : World)
      → Sound env w
      → Sound env (record w { whitelist = delete_where p w.whitelist })
  delete-Sound p w s = record {
    entries = delete-Keyed env.cuid entry_id entry_kakao p w.issued w.whitelist s.entries;
    users = s.users;
    agree = λ x u i j. s.agree x u (In-deleted p x w.whitelist i) j;
  }

  pub entries-Sound :
      (p : Whitelist → Bool) (f : Whitelist → Whitelist) (w : World)
      → KeepsEntry f
      → Sound env w
      → Agree (update_where p f w.whitelist) w.users
      → Sound env (record w { whitelist = update_where p f w.whitelist })
  entries-Sound p f w k s a = record {
    entries = update-Keyed env.cuid entry_id entry_kakao p f w.issued w.whitelist k s.entries;
    users = s.users;
    agree = a;
  }

  pub users-Sound :
      (q : User → Bool) (g : User → User) (w : World)
      → KeepsUser g
      → Sound env w
      → Agree w.whitelist (update_where q g w.users)
      → Sound env (record w { users = update_where q g w.users })
  users-Sound q g w k s a = record {
    entries = s.entries;
    users = update-Keyed env.cuid user_id user_kakao q g w.issued w.users k s.users;
    agree = a;
  }

  -- Rows whose status stays, or is no longer a blocked one.
  pub milder-Sound :
      (p : Whitelist → Bool) (f : Whitelist → Whitelist) (w : World)
      → KeepsEntry f
      → ((x : Whitelist) → is_blocked (f x).status ≡ true → is_blocked x.status ≡ true)
      → Sound env w
      → Sound env (record w { whitelist = update_where p f w.whitelist })
  milder-Sound p f w k milder s = entries-Sound p f w k s agreed
    where
      was :
          (x : Whitelist)
          → (is_blocked (touched p f x).status ≡ true → is_blocked x.status ≡ true)
            × ((touched p f x).kakao_id ≡ x.kakao_id)
      was x = elim (Bool-cases (p x)) [
        | inl e ↦ rw e (milder x, (k x).1)
        | inr e ↦ rw e ((λ h. h), refl)
      ]

      agreed : Agree (update_where p f w.whitelist) w.users
      agreed y u i j (o, n) h =
          let (x, i', e) = In-updated p f y w.whitelist i in
          s.agree x u i' j (sym ((was x).1) ∙ sym (ap entry_kakao e) ∙ o, n)
            ((was x).0 (sym (ap (λ (z : Whitelist). is_blocked z.status) e) ∙ h))
