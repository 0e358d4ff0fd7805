-- ===== src/Dynamic.antt =====
-- The values of Rhai scripts, as far as middlesox/src/engine.rs looks into them.
use middlesox.Prelude.{ℕ, Bool, String, ℤ}

-- Rhai's `Dynamic`. `other` stands for its types that have no JSON form.
mutual
  pub data Dynamic : Type 0 where
    unit other : Dynamic
    bool : Bool → Dynamic
    int : ℤ → Dynamic
    float : ℕ → Dynamic
    string : String → Dynamic
    array : Dynamics → Dynamic
    map : Entries → Dynamic

  pub data Dynamics : Type 0 where
    nil : Dynamics
    cons : Dynamic → Dynamics → Dynamics

  pub data Entries : Type 0 where
    end : Entries
    entry : String → Dynamic → Entries → Entries
