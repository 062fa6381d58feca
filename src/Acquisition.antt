-- ===== src/Acquisition.antt =====
-- growth_os/acquisition: fetching of robots.txt files and pages.
pub mod Fetched
pub mod Transport
pub mod Robots
