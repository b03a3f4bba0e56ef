-- ===== src/Coaches/Model.antt =====
-- src/modules/coaches/model.rs: the columns of a coach that the ownership gate reads.
use dream_fly_backend.Base.{Uuid}

pub record Coach : Type 0 where
  pub id : Uuid
  pub user_id : Uuid
