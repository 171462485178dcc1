-- ===== src/Lru/Steps.antt =====
-- The steps of `LRURemove`.
use dvb_vulture.Prelude.{
  ℕ, suc, ◌+◌, ◌≡◌, ◌≢◌, refl, List, ◌∷◌, ◌++◌, none, some, true, false, ==_refl, ==_ne,
  if◌then◌else◌,
}
use dvb_vulture.DList.{Store}
use dvb_vulture.DList
use dvb_vulture.DList.Join.{Holds, Leaves-Holds}
use dvb_vulture.DList.Links.{remove-Leaves}
use dvb_vulture.Lru.{Lru, put_part, remove, is_mid, leave_mid, count_out, emptied, lru_balance}

-- the steps of `LRURemove`
pub remove-steps :
    (s : Lru) (e f : ℕ) (s1 s2 s3 : Lru)
    → s.l.first ≡ some f
    → (if is_mid s e then leave_mid s e else some s) ≡ some s1
    → count_out (record s1 { l = DList.remove s1.l e }) e ≡ some s2
    → lru_balance s2 ≡ some s3
    → remove s e ≡ some (0, s3)
unfolding remove
remove-steps s e f s1 s2 s3 first leave count balance =
    simp (first, leave, count, balance, remove) refl

pub count_before :
    (s : Lru) (e n : ℕ)
    → s.part e ≡ 0
    → s.before ≡ suc n
    → count_out s e ≡ some (record s { before = n })
count_before s e n part count = rw (part, count) refl

pub count_behind :
    (s : Lru) (e n : ℕ)
    → s.part e ≡ 1
    → s.behind ≡ suc n
    → count_out s e ≡ some (record s { behind = n })
count_behind s e n part count = rw (part, count) refl

pub count_none : (s : Lru) (e : ℕ) → s.part e ≡ 2 → count_out s e ≡ some (emptied s)
count_none s e part = rw part refl

pub leave_left :
    (s : Lru) (e p n : ℕ)
    → s.l.prev e ≡ some p
    → s.before ≡ suc n
    → leave_mid s e
      ≡ some (record s {
        mid = some p;
        part = put_part (put_part s.part e 1) p 2;
        before = n;
        behind = s.behind + 1;
      })
leave_left s e p n back count = rw (back, count, leave_mid) refl

pub leave_right :
    (s : Lru) (e q n : ℕ)
    → s.l.prev e ≡ none
    → s.l.next e ≡ some q
    → s.behind ≡ suc n
    → leave_mid s e
      ≡ some (record s {
        mid = some q;
        part = put_part (put_part s.part e 0) q 2;
        before = s.before + 1;
        behind = n;
      })
leave_right s e q n back front count = rw (back, front, count, leave_mid) refl

pub leave_none :
    (s : Lru) (e : ℕ)
    → s.l.prev e ≡ none
    → s.l.next e ≡ none
    → leave_mid s e ≡ some (record s { mid = none })
leave_none s e back front = rw (back, front, leave_mid) refl

pub other_mid : (s : Lru) (e m : ℕ) → s.mid ≡ some m → m ≢ e → is_mid s e ≡ false
other_mid s e m mid ne = rw mid (==_ne m e ne)

pub own_mid : (s : Lru) (m : ℕ) → s.mid ≡ some m → is_mid s m ≡ true
own_mid s m mid = rw mid (==_refl m)

-- the list without the element
pub removed :
    (s : Store) (as1 : List ℕ) (e : ℕ) (bs : List ℕ)
    → Holds s (as1 ++ (e ∷ bs))
    → Holds (DList.remove s e) (as1 ++ bs)
removed s as1 e bs holds = Leaves-Holds s (DList.remove s e) as1 bs e holds (remove-Leaves s e)
