-- ===== src/Master.antt =====
-- slg_master.c: the configuration, the slaves, the measures of the waves, and the loop over the waves.
pub mod Measures
pub mod Waves
pub mod WaveCount
pub mod Config
pub mod Slaves
pub mod CommandLine
pub mod Printed
pub mod Iteration
pub mod Campaign
mod Tests
pub mod Filled
