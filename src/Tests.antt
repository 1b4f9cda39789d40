-- ===== src/Tests.antt =====
-- Runs of the model on concrete inputs, and each conditional theorem at an input that meets its
-- conditions.
pub mod SessionTests
pub mod NetworkTests
pub mod GameTests
pub mod LoginTests
pub mod CoreTests
pub mod CreatureTests
pub mod HeroTests
pub mod MindTests
