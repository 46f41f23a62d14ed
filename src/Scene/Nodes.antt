-- ===== src/Scene/Nodes.antt =====
-- The node methods of src/scene.rs, each one scene transaction: `create_node`, `update_node`,
-- `delete_node`, `place_terminal_surface`.
use vivid_sdk.Prelude.{
  ℕ, Bool, not, ◌||◌, Option, [], ◌∷◌, ltb, ◌==◌, if◌then◌else◌, ok, err, ◌>>◌, refuse_if, or_fail,
}
use vivid_sdk.Wire.{PayloadMap}
use vivid_sdk.Session.{invalid_input, invalid_data}
use vivid_sdk.Scene.Commits.{Stage, SceneCommit}
use vivid_sdk.Scene.{Presenter, Action, scene_transaction}

-- `SceneNode` of another crate, without what its payload alone reads: fit, order, opacity and clip
-- are `style`.
pub record SceneNode (g : Stage) (Style : Type 0) : Type 0 where
  pub owning_context_id : ℕ
  pub node_id : ℕ
  pub surface_context_id : ℕ
  pub surface_id : ℕ
  pub geometry : PayloadMap g.remote.cbor
  pub style : Style

module _ (g : Stage) (p : Presenter g) (Style : Type 0) (contained : Style)
    (validate : SceneNode g Style → Bool)
    (payload_of : SceneNode g Style → Option (PayloadMap g.remote.cbor))
    (is_positive : g.remote.Signed → Bool) where
  -- A mutation that is written under `mutation_type` when the node is valid.
  node_transaction : ℕ → SceneNode g Style → Action g SceneCommit
  node_transaction mutation_type node s =
      elim (do
        refuse_if (not (validate node)) invalid_input
        or_fail (payload_of node) invalid_data) [
          | err e ↦ (s, err e)
          | ok payload ↦
              scene_transaction g p node.owning_context_id mutation_type node.node_id payload s
        ]

  pub create_node : SceneNode g Style → Action g SceneCommit
  unfolding node_transaction
  create_node node = node_transaction g.create_node node

  pub update_node : SceneNode g Style → Action g SceneCommit
  unfolding node_transaction
  update_node node = node_transaction g.update_node node

  pub delete_node : ℕ → ℕ → Action g SceneCommit
  delete_node context_id node_id s =
      if context_id == 0 || node_id == 0
      then (s, err invalid_input)
      else scene_transaction g p context_id g.delete_node node_id
          ((0, g.remote.unsigned context_id) ∷ (1, g.remote.unsigned node_id) ∷ []) s

  pub place_terminal_surface :
      ℕ
      → ℕ
      → ℕ
      → g.remote.Signed
      → g.remote.Signed
      → g.remote.Signed
      → g.remote.Signed
      → ℕ
      → Action g SceneCommit
  unfolding create_node
  place_terminal_surface context_id surface_id node_id x y width height text_layer s =
      if not (is_positive width) || not (is_positive height) || ltb 2 text_layer
      then (s, err invalid_input)
      else create_node
          record {
            owning_context_id = context_id;
            node_id = node_id;
            surface_context_id = context_id;
            surface_id = surface_id;
            geometry =
                (0, g.remote.unsigned 1)
                ∷ (1, g.remote.signed x)
                ∷ (2, g.remote.signed y)
                ∷ (3, g.remote.signed width)
                ∷ (4, g.remote.signed height)
                ∷ (5, g.remote.unsigned text_layer)
                ∷ [];
            style = contained;
          }
          s
